-- ===== src/Examples/Background.antt =====
-- Goroutines: one that panics twice, a group of one, a pool of one slot, a fan-out over two items.
use neokit.Base.{
  ◌==◌, ℕ, ◌+◌, All, ◌≡◌, ◌≢◌, ◌∷◌, [], ◌⊎◌, inl, inr, Distinct, contains, ◌≤◌, ◌<◌, true, false,
  refl, nat_eq, if◌then◌else◌, some, arith,
}
use neokit.Safe.{Ending, returned, panicked}
use neokit.Safe.Supervise.{Attempt, supervise, supervise_lem}
use neokit.Safe.Group.{Group, zero_group, enter, leave, wake, close_idle, wait, arm}
use neokit.Safe.Group.Drain.{drained_wakes, closes_seen_idle}
use neokit.Safe.Pool.{Pool, zero_pool, go, close, queued, holding, running, leaving, done, Task}
use neokit.Safe.Pool.Bounds.{pool_bounded, total, runs}
use neokit.Safe.Group
use neokit.Safe.Pool

abbrev crash : Attempt
crash = record { ending = panicked; cancelled = false; timer_first = true }

abbrev quit : Attempt
quit = record { ending = returned tt; cancelled = false; timer_first = true }

supervise_lem_example :
    (supervise (crash ∷ crash ∷ []) ≡ record { runs = 2; ended = false })
    × (supervise (crash ∷ crash ∷ quit ∷ crash ∷ []) ≡ record { runs = 3; ended = true })
supervise_lem_example =
    supervise_lem (crash ∷ crash ∷ []) quit (crash ∷ [])
      ((refl, refl, refl), ((refl, refl, refl), tt)) (λ h. ground arith)

-- One goroutine, one waiter: the goroutine leaves and wakes it.
abbrev left : Group
left = record {
  n = 0;
  mu = Group.unlocked;
  idle = some 0;
  closed = [];
  next = 1;
  wakers = 1;
  waiting = 0 ∷ [];
}

abbrev about_to_close : Group
about_to_close = record left { mu = Group.closing }

left-Reach : Group.Reach left
unfolding zero_group enter leave wait arm
left-Reach =
    Group.after
      (Group.after (Group.after (Group.after Group.start Group.enters) (Group.waits refl))
        (Group.arms refl))
      (Group.leaves (ground arith))

about_to_close-Reach : Group.Reach about_to_close
unfolding wake
about_to_close-Reach = Group.after left-Reach (Group.wakes (ground arith) refl)

drained_wakes_example : All {A = ℕ} (λ c. contains (0 ∷ []) c ≡ true) (0 ∷ [])
unfolding close_idle
drained_wakes_example =
    drained_wakes (Group.after about_to_close-Reach (Group.closes refl)) refl refl

closes_seen_idle_example :
    let h = close_idle about_to_close in
    Distinct h.closed
    × (h.closed ≢ []
        → (Group.closing ≡ Group.closing) × ((c : ℕ) × (some 0 ≡ some c) × (h.closed ≡ c ∷ [])))
    × (Group.closing ≢ Group.closing → h.mu ≡ Group.closing → (about_to_close.n ≡ 0) × (h.n ≡ 0))
    × (Group.closing ≡ Group.closing
        → let g' = enter about_to_close in
          Group.Step about_to_close g'
          × Group.Step g' (close_idle g')
          × (0 < (close_idle g').n)
          × ((close_idle g').closed ≢ g'.closed))
closes_seen_idle_example = closes_seen_idle about_to_close-Reach (Group.closes refl)

-- Two tasks on one slot: the first runs, the second waits.
abbrev one_slot : Pool
one_slot = record {
  limit = 1;
  sem = some 1;
  closed = false;
  tasks =
      record { phase = running true; starts = 1 } ∷ record { phase = queued true; starts = 0 } ∷ [];
  count = 2;
}

abbrev second : Task
second = record { phase = queued true; starts = 0 }

abbrev first : Task
first = record { phase = queued true; starts = 0 }

one_slot-Reach : Pool.Reach 1 one_slot
unfolding zero_pool go
one_slot-Reach =
    Pool.after
      (Pool.after (Pool.after (Pool.after Pool.start (Pool.goes false)) (Pool.goes false))
        (Pool.moves [] first (second ∷ []) refl (Pool.take_slot 0 refl refl (ground arith))))
      (Pool.moves [] (record first { phase = holding }) (second ∷ []) refl (Pool.run_held refl))

pool_bounded_example : (total runs one_slot.tasks ≤ 1) × All (λ t. t.starts ≤ 1) one_slot.tasks
pool_bounded_example = pool_bounded 1 one_slot-Reach (ground arith)

-- Item 3 fails, every other is doubled.
abbrev double : ℕ → Ending (ℕ ⊎ ℕ)
double n = if n == 3 then returned (inr 500) else returned (inl (n + n))
