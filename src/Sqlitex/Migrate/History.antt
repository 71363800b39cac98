-- ===== src/Sqlitex/Migrate/History.antt =====
-- Any history of runs: retries, crashes, newer and older builds.
use mathlib.Core.Path.{ap₂}
use neokit.Base.{
  List, ℕ, ◌≡◌, All, Option, pos, some, take, ◌≤◌, ◌∷◌, ◌+◌, [], length, suc, ap, inl, arith, inr,
  ◌∙◌, none, refl, drop, ltb, false, zero, ◌-◌, sym, take_whole, length-drop,
}
use neokit.Sqlitex.Migrate.{
  Db, Migration, Trouble, Result, done, smooth, applied, apply_step, apply_steps, migrate,
}
use neokit.Sqlitex.Migrate.Versions.{
  after, effect, carry, after-after, at_version, Upgraded, migrate-at_version, length-take_le,
}

-- A run of a build that knows the first `build` of the shipped steps.
pub record Run (W E : Type 0) : Type 0 where
  pub build : ℕ
  pub reads : Option E
  pub troubles : ℕ → Trouble W E

abbrev pub HasUp : {W : Type 0} → Migration W → Type 0
HasUp m = (up : _) × (m.up ≡ some up)

All-drop : {W : Type 0} (n : ℕ) (ms : List (Migration W)) → All HasUp ms → All HasUp (drop n ms)
All-drop zero ms h = h
All-drop (suc n) [] h = tt
All-drop (suc n) (m ∷ ms) h = All-drop n ms h.1

module _ {W E : Type 0} where
  run_on : List (Migration W) → Run W E → Db W → Db W × Result E
  run_on shipped r db = migrate r.reads r.troubles (take r.build shipped) db

  -- The database after one run after the other.
  unfoldable pub history : List (Migration W) → List (Run W E) → Db W → Db W
  unfolding run_on
  history shipped [] db = db
  history shipped (r ∷ rs) db = history shipped rs (run_on shipped r db).0

  one_run :
      (shipped : List (Migration W)) (w : W) (r : Run W E) (k : ℕ)
      → k ≤ length shipped
      → (j : ℕ) × (j ≤ length shipped)
        × ((run_on shipped r (at_version shipped w k)).0 ≡ at_version shipped w j)
  unfolding Upgraded run_on migrate at_version
  one_run shipped w r k h = go r.reads refl
    where
      go :
          (o : Option E)
          → r.reads ≡ o
          → (j : ℕ) × (j ≤ length shipped)
            × ((migrate r.reads r.troubles (take r.build shipped) (at_version shipped w k)).0
                ≡ at_version shipped w j)
      go (some e) x = (k, h, rw (x, migrate) refl)
      go none x = elim (migrate-at_version r.troubles shipped w r.build k) [
        | inl (l, e) ↦ (k, h, rw x (ap (λ o. o.0) e))
        | inr (l, (j, u, v, e, f)) ↦ (j, omega (arith, v, length-take_le shipped r.build), rw x e)
      ]

  -- Whatever the runs were, with failures, crashes, retries, newer and older builds among them, the
  -- database stands at some version, with the effect of exactly that many of the shipped steps.
  pub history-at_version :
      (shipped : List (Migration W)) (w : W) (rs : List (Run W E)) (k : ℕ)
      → k ≤ length shipped
      → (j : ℕ) × (j ≤ length shipped)
        × (history shipped rs (at_version shipped w k) ≡ at_version shipped w j)
  unfolding history
  history-at_version shipped w [] k h = (k, h, refl)
  history-at_version shipped w (r ∷ rs) k h =
      let (j, u, e) = one_run shipped w r k h in
      let (i, v, f) = history-at_version shipped w rs j u in (i, v, ap (history shipped rs) e ∙ f)

  apply_step-smooth :
      (i : ℕ) (m : Migration W) (db : Db W)
      → HasUp m
      → apply_step {E = E} smooth i m db
        ≡ (record { version = pos (suc i); contents = effect m db.contents }, applied)
  unfolding apply_step
  apply_step-smooth i m db (up, h) = rw h refl

  apply_steps-smooth :
      (i : ℕ) (ms : List (Migration W)) (c : W)
      → All HasUp ms
      → apply_steps {E = E} (λ j. smooth) i ms (record { version = pos i; contents = c })
        ≡ (record { version = pos (i + length ms); contents = after ms c }, done)
  unfolding apply_steps after carry
  apply_steps-smooth i [] c h =
      ap (λ v. (record { version = pos v; contents = c }, done)) (omega arith)
  apply_steps-smooth i (m ∷ ms) c h =
      ap (carry (λ j. smooth) i ms)
        (apply_step-smooth i m (record { version = pos i; contents = c }) h.0)
      ∙ apply_steps-smooth (suc i) ms (effect m c) h.1
      ∙ ap (λ v. (record { version = pos v; contents = after ms (effect m c) }, done)) (omega arith)

  finish :
      (shipped : List (Migration W)) (w : W) (j : ℕ)
      → j ≤ length shipped
      → All HasUp shipped
      → migrate {E = E} none (λ i. smooth) shipped (at_version shipped w j)
        ≡ (at_version shipped w (length shipped), done)
  unfolding migrate at_version
  finish shipped w j u h = rw (not_future j (length shipped) u) (
      apply_steps-smooth j (drop j shipped) (after (take j shipped) w) (All-drop j shipped h)
      ∙ ap (λ d. (d, done))
          (ap₂ (λ v c. record { version = pos v; contents = c })
            (omega (arith, length-drop j shipped)) rest))
    where
      n : ℕ
      n = length shipped

      whole : drop j shipped ≡ take (n - j) (drop j (take n shipped))
      whole = sym (
          ap (λ l. take (n - j) (drop j l)) (take_whole shipped n (omega arith))
          ∙ take_whole (drop j shipped) (n - j) (omega (arith, length-drop j shipped)))

      rest : after (drop j shipped) (after (take j shipped) w) ≡ after (take n shipped) w
      rest =
          ap (λ l. after l (after (take j shipped) w)) whole
          ∙ after-after j (n - j) n shipped w (omega (arith, u))
          ∙ ap (λ k. after (take k shipped) w) (omega (arith, u))

      not_future : (j n : ℕ) → j ≤ n → ltb n j ≡ false
      not_future j n h = ground arith

  -- After any history, one run of a build that knows every shipped step, each with an Up, and meets
  -- no trouble ends done, with each shipped step's effect there once and in order.
  pub migrate-history :
      (shipped : List (Migration W)) (w : W) (rs : List (Run W E))
      → All HasUp shipped
      → migrate {E = E} none (λ i. smooth) shipped (history shipped rs (at_version shipped w 0))
        ≡ (at_version shipped w (length shipped), done)
  migrate-history shipped w rs h =
      let (j, u, e) = history-at_version shipped w rs 0 (omega arith) in
      ap (migrate none (λ i. smooth) shipped) e ∙ finish shipped w j u h
