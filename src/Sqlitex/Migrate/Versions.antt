-- ===== src/Sqlitex/Migrate/Versions.antt =====
-- The version stamp against the contents, over any history of runs.
use neokit.Base.{
  List, ℕ, pos, ◌≤◌, ◌∷◌, arith, length, none, take, ap, some, ◌≡◌, ◌+◌, [], inl, Option, ◌⊎◌, inr,
  refl, suc, ◌∙◌, subst, sym, drop, zero, ◌<◌, Bool-cases, ltb, length-drop,
}
use neokit.Sqlitex.Migrate.{
  Db, Migration, Trouble, StepError, StepResult, Result, nil_up, begin_error, up_error, stamp_error,
  commit_error, stamp, applied, step_failed, step_crashed, smooth, begin_fails, up_fails,
  stamp_fails, commit_fails, crash_before_commit, crash_after_commit, done, failed, crashed,
  apply_step, apply_steps, migrate, from_the_future,
}

module _ {W : Type 0} where
  abbrev pub effect : Migration W → W → W
  effect m w = elim m.up [ none ↦ w | some up ↦ up w ]

  -- The effect of the steps in their order.
  unfoldable pub after : List (Migration W) → W → W
  after [] w = w
  after (m ∷ ms) w = after ms (effect m w)

  -- The database that the first `k` of the shipped steps leave of `w`, stamped with `k`.
  unfoldable pub at_version : List (Migration W) → W → ℕ → Db W
  at_version shipped w k = record { version = pos k; contents = after (take k shipped) w }

module _ {W : Type 0} where
  take-take : (ms : List (Migration W)) (j b : ℕ) → j ≤ b → take j (take b ms) ≡ take j ms
  take-take ms zero b h = refl
  take-take ms (suc j) zero h = ground arith
  take-take [] (suc j) (suc b) h = refl
  take-take (m ∷ ms) (suc j) (suc b) h = ap (λ l. m ∷ l) (take-take ms j b (omega (arith, h)))

  after_nil : (n : ℕ) (w : W) → after (take n []) w ≡ w
  unfolding after
  after_nil zero w = refl
  after_nil (suc n) w = refl

  pub length-take_le :
      (ms : List (Migration W)) (b : ℕ)
      → (length (take b ms) ≤ b) × (length (take b ms) ≤ length ms)
  length-take_le ms zero = omega arith
  length-take_le [] (suc b) = omega arith
  length-take_le (m ∷ ms) (suc b) = omega (arith, length-take_le ms b)

  -- The steps behind the first `k` go on from what these left.
  pub after-after :
      (k j b : ℕ) (ms : List (Migration W)) (w : W)
      → k + j ≤ b
      → after (take j (drop k (take b ms))) (after (take k ms) w) ≡ after (take (k + j) ms) w
  unfolding after
  after-after zero j b ms w h =
      ap (λ l. after l w) (take-take ms j b (omega (arith, h)))
      ∙ ap (λ n. after (take n ms) w) (omega arith)
  after-after (suc k) j zero ms w h = ground (arith, h)
  after-after (suc k) j (suc b) [] w h = after_nil j w ∙ sym (after_nil (suc k + j) w)
  after-after (suc k) j (suc b) (m ∷ ms) w h =
      after-after k j b ms (effect m w) (omega (arith, h))
      ∙ ap (λ n. after (take n (m ∷ ms)) w) {x = suc (k + j)} (omega arith)

stayed :
    {W : Type 0} (i : ℕ) (c : W)
    → ◌≡◌ {A = Db W}
        (record { version = pos i; contents = c })
        (record { version = pos (i + 0); contents = c })
stayed i c = ap (λ v. record { version = pos v; contents = c }) (omega arith)

module _ {W E : Type 0} where
  -- One step changes nothing, or applies its effect and stamps it.
  abbrev OneStep : ℕ → Migration W → Db W → Db W × StepResult E → Type 0
  OneStep i m db out =
      ((e : StepError E) × (out ≡ (db, step_failed e)))
      ⊎ (out ≡ (db, step_crashed))
      ⊎ ((up : W → W) × (m.up ≡ some up)
          × (let db' = stamp i (record db { contents = up db.contents }) in
              (out ≡ (db', applied)) ⊎ (out ≡ (db', step_crashed))))

  apply_step-OneStep :
      (t : Trouble W E) (i : ℕ) (m : Migration W) (db : Db W) → OneStep i m db (apply_step t i m db)
  unfolding apply_step
  apply_step-OneStep t i m db = go t m.up refl
    where
      go : (t : Trouble W E) (u : Option (W → W)) → m.up ≡ u → OneStep i m db (apply_step t i m db)
      go t none h = inl (nil_up, rw h refl)
      go smooth (some up) h = inr (inr (up, h, inl (rw h refl)))
      go (begin_fails e) (some up) h = inl (begin_error e, rw h refl)
      go (up_fails w e) (some up) h = inl (up_error e, rw h refl)
      go (stamp_fails e) (some up) h = inl (stamp_error e, rw h refl)
      go (commit_fails e) (some up) h = inl (commit_error e, rw h refl)
      go crash_before_commit (some up) h = inr (inl (rw h refl))
      go crash_after_commit (some up) h = inr (inr (up, h, inr (rw h refl)))

  -- How the loop ends: after `j` more steps, all of them or up to one that failed, or in a crash.
  Ended : ℕ → List (Migration W) → W → Db W × Result E → Type 0
  Ended i ms c (db, r) =
      (j : ℕ) × (j ≤ length ms)
      × (db ≡ record { version = pos (i + j); contents = after (take j ms) c })
      × ((r ≡ done) × (j ≡ length ms)
          ⊎ ((e : StepError E) × (r ≡ failed (i + j) e))
          ⊎ (r ≡ crashed))

  -- The loop behind one step that was applied.
  next_step :
      (i : ℕ) (m : Migration W) (ms : List (Migration W)) (c : W) (up : W → W)
      (out : Db W × Result E)
      → m.up ≡ some up
      → Ended (suc i) ms (up c) out
      → Ended i (m ∷ ms) c out
  unfolding Ended after
  next_step i m ms c up out h (j, k, l, e) = (
    suc j,
    omega (arith, k),
    rw h (l ∙ ap (λ v. record { version = pos v; contents = after (take j ms) (up c) }) shifted),
    elim e [
      | inl (r, w) ↦ inl (r, ap suc w)
      | inr (inl (f, r)) ↦ inr (inl (f, r ∙ ap (λ v. failed v f) shifted))
      | inr (inr r) ↦ inr (inr r)
    ],
  )
    where
      shifted : suc i + j ≡ i + suc j
      shifted = omega arith

  -- The loop behind the step `i`.
  unfoldable pub carry :
      (ℕ → Trouble W E) → ℕ → List (Migration W) → Db W × StepResult E → Db W × Result E
  carry t i ms (db, applied) = apply_steps t (suc i) ms db
  carry t i ms (db, step_failed e) = (db, failed i e)
  carry t i ms (db, step_crashed) = (db, crashed)

  apply_steps-Ended :
      (t : ℕ → Trouble W E) (i : ℕ) (ms : List (Migration W)) (c : W)
      → Ended i ms c (apply_steps t i ms (record { version = pos i; contents = c }))
  unfolding apply_steps after Ended carry
  apply_steps-Ended t i [] c = (0, omega arith, stayed i c, inl (refl, refl))
  apply_steps-Ended t i (m ∷ ms) c =
      elim (apply_step-OneStep (t i) i m (record { version = pos i; contents = c })) [
        | inl (e, h) ↦
            from h (0, omega arith, stayed i c, inr (inl (e, ap (λ v. failed v e) (omega arith))))
        | inr (inl h) ↦ from h (0, omega arith, stayed i c, inr (inr refl))
        | inr (inr (up, k, inl h)) ↦
            from h (next_step i m ms c up _ k (apply_steps-Ended t (suc i) ms (up c)))
        | inr (inr (up, k, inr h)) ↦
            from h
              (next_step i m ms c up _ k (0, omega arith, stayed (suc i) (up c), inr (inr refl)))
      ]
    where
      from :
          {out : Db W × StepResult E}
          → apply_step (t i) i m (record { version = pos i; contents = c }) ≡ out
          → Ended i (m ∷ ms) c (carry t i ms out)
          → Ended i (m ∷ ms) c (apply_steps t i (m ∷ ms) (record { version = pos i; contents = c }))
      from h = subst (λ out. Ended i (m ∷ ms) c (carry t i ms out)) (sym h)

  -- What a run that goes on from version `k` with `n` known steps leaves and answers.
  unfoldable pub Upgraded : List (Migration W) → W → ℕ → ℕ → Db W × Result E → Type 0
  Upgraded shipped w n k out =
      (j : ℕ) × (k ≤ j)
      × (j ≤ n)
      × (out.0 ≡ at_version shipped w j)
      × ((out.1 ≡ done) × (j ≡ n) ⊎ ((e : StepError E) × (out.1 ≡ failed j e)) ⊎ (out.1 ≡ crashed))

  resumed :
      (t : ℕ → Trouble W E) (shipped : List (Migration W)) (w : W) (b k : ℕ)
      → k ≤ length (take b shipped)
      → Upgraded shipped w
          (length (take b shipped))
          k
          (apply_steps t k (drop k (take b shipped)) (at_version shipped w k))
  unfolding Upgraded at_version Ended
  resumed t shipped w b k h =
      let (j, u, v, e) =
        apply_steps-Ended t k (drop k (take b shipped)) (after (take k shipped) w) in
      (
        k + j,
        omega arith,
        omega (arith, u, length-drop k (take b shipped), h),
        v
            ∙ ap (λ c. record { version = pos (k + j); contents = c })
                (after-after k j b shipped w
                  (omega (arith, u, length-drop k (take b shipped), length-take_le shipped b, h))),
        elim e [
          | inl (r, x) ↦ inl (r, omega (arith, x, length-drop k (take b shipped), h))
          | inr (inl x) ↦ inr (inl x)
          | inr (inr x) ↦ inr (inr x)
        ],
      )

  -- A run of a build that knows the first `b` of the shipped steps, over a database at version `k`:
  -- the build refuses it and changes nothing where it knows fewer than `k` steps; else the steps
  -- behind `k` are applied once each and in order, with the stamp in step, up to a step that fails,
  -- which the error names, up to a crash, or up to the last step that the build knows.
  pub migrate-at_version :
      (t : ℕ → Trouble W E) (shipped : List (Migration W)) (w : W) (b k : ℕ)
      → let out = migrate none t (take b shipped) (at_version shipped w k) in
        let n = length (take b shipped) in
        (n < k) × (out ≡ (at_version shipped w k, from_the_future))
        ⊎ (k ≤ n) × Upgraded shipped w n k out
  unfolding migrate at_version
  migrate-at_version t shipped w b k = elim (Bool-cases (ltb (length (take b shipped)) k)) [
    | inl l ↦ inl (ground arith, rw l refl)
    | inr l ↦
        let h : k ≤ length (take b shipped) = ground arith in
        inr (h, rw l (resumed t shipped w b k h))
  ]
