-- ===== src/Safe/Pool/Bounds.antt =====
-- What the pool keeps true in every interleaving (safe/pool.go).
use mathlib.Core.List.{append-nil}
use neokit.Base.{
  ℕ, List, All, ◌++◌, Bool, Option, arith, true, ◌≡◌, ◌∷◌, ◌+◌, false, ltb, some, ◌<◌, [], ◌≤◌,
  none, refl, All-middle, Bool-cases, ◌∙◌, ap, subst, ◌||◌, inl, inr, is_some, All-append, All-map,
  suc, sym, All-replace,
}
use neokit.Safe.Pool.{
  Phase, queued, holding, running, leaving, done, Task, Pool, zero_pool, go, close, Move, run_free,
  take_slot, drop, refuse, run_held, end_free, end_held, finish, Step, goes, closes, moves, Reach,
  start, after, make_sem,
}

-- The slots that a task holds, and its part of the wait group's count.
abbrev pub holds : Phase → ℕ
holds holding = 1
holds (running true) = 1
holds (running false) = 0
holds (queued b) = 0
holds leaving = 0
holds done = 0

abbrev pub lives : Phase → ℕ
lives done = 0
lives (queued b) = 1
lives holding = 1
lives (running b) = 1
lives leaving = 1

abbrev pub runs : Phase → ℕ
runs (running b) = 1
runs (queued b) = 0
runs holding = 0
runs leaving = 0
runs done = 0

abbrev pub total : (Phase → ℕ) → List Task → ℕ
total f [] = 0
total f (t ∷ ts) = f t.phase + total f ts

total-middle :
    (f : Phase → ℕ) (xs ys : List Task) (t : Task)
    → total f (xs ++ t ∷ ys) ≡ f t.phase + total f (xs ++ ys)
total-middle f [] ys t = refl
total-middle f (x ∷ xs) ys t = omega (arith, total-middle f xs ys t)

-- A task runs at most once, and under a limit never without a slot.
abbrev TaskOk : ℕ → Phase → ℕ → Type 0
TaskOk limit (queued b) n = (n ≡ 0) × (b ≡ ltb 0 limit)
TaskOk limit holding n = (n ≡ 0) × (0 < limit)
TaskOk limit (running b) n = (n ≡ 1) × (b ≡ ltb 0 limit)
TaskOk limit leaving n = n ≤ 1
TaskOk limit done n = n ≤ 1

abbrev Ok : ℕ → Task → Type 0
Ok limit t = TaskOk limit t.phase t.starts

abbrev Slots : ℕ → Option ℕ → ℕ → Type 0
Slots limit none held = held ≡ 0
Slots limit (some taken) held = (taken ≡ held) × (taken ≤ limit) × (0 < limit)

record Inv (limit : ℕ) (p : Pool) : Type 0 where
  same_limit : p.limit ≡ limit
  slots : Slots limit p.sem (total holds p.tasks)
  counted : p.count ≡ total lives p.tasks
  tasks_ok : All (Ok limit) p.tasks

zero_pool-Inv : (limit : ℕ) → Inv limit (zero_pool limit)
unfolding zero_pool
zero_pool-Inv limit = ground arith

total-snoc :
    (f : Phase → ℕ) (xs : List Task) (t : Task) → total f (xs ++ t ∷ []) ≡ f t.phase + total f xs
total-snoc f xs t = total-middle f xs [] t ∙ ap (λ ys. f t.phase + total f ys) (append-nil xs)

go-Inv : (limit : ℕ) (cancelled : Bool) (p : Pool) → Inv limit p → Inv limit (go cancelled p).0
unfolding go
go-Inv limit cancelled p v = elim (Bool-cases (p.closed || cancelled)) [
  | inl refused ↦ rw refused v
  | inr accepted ↦
      let t : Task = record { phase = queued (is_some (make_sem p)); starts = 0 } in
      let new_ok : Ok limit t = ground arith in
      rw accepted (record {
        same_limit = v.same_limit;
        slots = ground (arith, total-snoc holds p.tasks t);
        counted = omega (arith, v.counted, total-snoc lives p.tasks t);
        tasks_ok = All-append (Ok limit) p.tasks (t ∷ []) v.tasks_ok (new_ok, tt);
      })
]

-- The invariant, seen from one task and the rest.
record At (limit : ℕ) (p : Pool) (xs ys : List Task) (phase : Phase) (starts : ℕ) : Type 0 where
  ok : TaskOk limit phase starts
  slots : Slots limit p.sem (holds phase + total holds (xs ++ ys))
  counted : p.count ≡ lives phase + total lives (xs ++ ys)

split :
    (limit : ℕ) (p : Pool) (xs ys : List Task) (t : Task)
    → p.tasks ≡ xs ++ t ∷ ys
    → Inv limit p
    → At limit p xs ys t.phase t.starts
split limit p xs ys t e v = record {
  ok = All-middle (Ok limit) xs ys t (subst (All (Ok limit)) e v.tasks_ok);
  slots = subst (Slots limit p.sem) (ap (total holds) e ∙ total-middle holds xs ys t) v.slots;
  counted = v.counted ∙ ap (total lives) e ∙ total-middle lives xs ys t;
}

join :
    (limit : ℕ) (p q : Pool) (xs ys : List Task) (t u : Task)
    → p.tasks ≡ xs ++ t ∷ ys
    → Inv limit p
    → q.tasks ≡ xs ++ u ∷ ys
    → q.limit ≡ p.limit
    → At limit q xs ys u.phase u.starts
    → Inv limit q
join limit p q xs ys t u e v f l a = record {
  same_limit = l ∙ v.same_limit;
  slots = rw (f, total-middle holds xs ys u) a.slots;
  counted = a.counted ∙ sym (ap (total lives) f ∙ total-middle lives xs ys u);
  tasks_ok = rw f (All-replace (Ok limit) xs ys t u a.ok (subst (All (Ok limit)) e v.tasks_ok));
}

Move-At :
    (limit : ℕ) {p q : Pool} {xs ys : List Task} {t : Task}
    → Move p xs t ys q
    → p.limit ≡ limit
    → At limit p xs ys t.phase t.starts
    → (u : Task) × (q.tasks ≡ xs ++ u ∷ ys)
      × (q.limit ≡ p.limit)
      × At limit q xs ys u.phase u.starts
Move-At limit {t} (run_free h) l a =
    (record { phase = running false; starts = suc t.starts }, refl, refl, ground arith)
Move-At limit {t} (take_slot taken h k m) l a =
    (record t { phase = holding }, refl, refl, ground arith)
Move-At limit {t} (drop h) l a = (record t { phase = leaving }, refl, refl, ground arith)
Move-At limit {t} (refuse taken h k) l a = (record t { phase = leaving }, refl, refl, ground arith)
Move-At limit {t} (run_held h) l a =
    (record { phase = running true; starts = suc t.starts }, refl, refl, ground arith)
Move-At limit {t} (end_free h) l a = (record t { phase = leaving }, refl, refl, ground arith)
Move-At limit {t} (end_held taken h k) l a =
    (record t { phase = leaving }, refl, refl, ground arith)
Move-At limit {t} (finish h) l a = (record t { phase = done }, refl, refl, ground arith)

Step-Inv : (limit : ℕ) {p q : Pool} → Step p q → Inv limit p → Inv limit q
unfolding close
Step-Inv limit {p} (goes cancelled) v = go-Inv limit cancelled p v
Step-Inv limit closes v = record {
  same_limit = v.same_limit;
  slots = v.slots;
  counted = v.counted;
  tasks_ok = v.tasks_ok;
}
Step-Inv limit {p} {q} (moves xs t ys e m) v =
    let (u, f, l, a) = Move-At limit m v.same_limit (split limit p xs ys t e v) in
    join limit p q xs ys t u e v f l a

Reach-Inv : (limit : ℕ) {p : Pool} → Reach limit p → Inv limit p
Reach-Inv limit start = zero_pool-Inv limit
Reach-Inv limit (after r st) = Step-Inv limit st (Reach-Inv limit r)

runs-le-holds :
    (limit : ℕ) (ts : List Task) → 0 < limit → All (Ok limit) ts → total runs ts ≤ total holds ts
runs-le-holds limit [] h ok = omega arith
runs-le-holds limit (t ∷ ts) h ok = ground (arith, runs-le-holds limit ts h ok.1)

none_holds :
    (limit : ℕ) (sem : Option ℕ) (held : ℕ) → Slots limit sem held → 0 < limit → held ≤ limit
none_holds limit sem held s h = ground arith

-- In every interleaving of a pool with a limit, no more tasks run at once than the limit, and no
-- task runs twice.
pub pool_bounded :
    (limit : ℕ) {p : Pool}
    → Reach limit p
    → 0 < limit
    → (total runs p.tasks ≤ limit) × All (λ t. t.starts ≤ 1) p.tasks
pool_bounded limit {p} r h =
    let v = Reach-Inv limit r in
    (
      omega (
        arith,
        runs-le-holds limit p.tasks h v.tasks_ok,
        none_holds limit p.sem (total holds p.tasks) v.slots h,
      ),
      All-map (Ok limit) _ (λ t ok. once t.phase t.starts ok) p.tasks v.tasks_ok,
    )
  where
    once : (ph : Phase) (n : ℕ) → TaskOk limit ph n → n ≤ 1
    once ph n ok = ground arith

drained_tasks : (ts : List Task) → total lives ts ≡ 0 → All (λ t. t.phase ≡ done) ts
drained_tasks [] h = tt
drained_tasks (t ∷ ts) h = (ground arith, drained_tasks ts (omega arith))

-- When the wait group's count is zero, so that Wait returns nil, every task that was accepted is
-- done; and a Go on a pool that Wait has closed, or under a done context, is refused and changes
-- nothing.
pub drained_done :
    (limit : ℕ) {p : Pool} (cancelled : Bool)
    → Reach limit p
    → (p.count ≡ 0 → All (λ t. t.phase ≡ done) p.tasks)
      × (go cancelled (close p) ≡ (close p, false))
      × (go true p ≡ (p, false))
unfolding go close
drained_done limit {p} cancelled r =
    (λ h. drained_tasks p.tasks (sym (Reach-Inv limit r).counted ∙ h), refl, ground arith)
