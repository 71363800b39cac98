-- ===== src/Safe/Supervise.antt =====
-- The loop of Group.Go (safe/supervise.go): a goroutine runs its function again after a panic.
-- What each attempt does is given as a list: how the run ends, whether the context is done by
-- then, and whether the backoff's timer or the context fires first.
use neokit.Base.{
  ℕ, Bool, List, All, false, if◌then◌else◌, ◌≡◌, length, true, ◌∷◌, ◌++◌, suc, arith, not, [], refl,
}
use neokit.Safe.{Ending, panicked, guarded}

pub record Attempt : Type 0 where
  pub ending : Ending (Unit {0})
  pub cancelled : Bool  -- ctx.Err() != nil when the backoff begins
  pub timer_first : Bool

-- backoff: whether to respawn.
unfoldable pub backoff : Attempt → Bool
backoff a = if a.cancelled then false else a.timer_first

-- The runs made, and whether the goroutine has ended.
pub record Life : Type 0 where
  pub runs : ℕ
  pub ended : Bool

unfoldable pub supervise : List Attempt → Life
unfolding guarded backoff
supervise [] = record { runs = 0; ended = false }
supervise (a ∷ attempts) =
    let rest = supervise attempts in
    let again : Life = record { runs = suc rest.runs; ended = rest.ended } in
    let stop : Life = record { runs = 1; ended = true } in
    if not (guarded a.ending) then stop else if not (backoff a) then stop else again

-- An attempt after which the goroutine goes on: a panic with the context still live.
abbrev pub GoesOn : Attempt → Type 0
GoesOn a = (a.ending ≡ panicked) × (a.cancelled ≡ false) × (a.timer_first ≡ true)

-- The goroutine runs through every attempt that ends in a panic under a live context, and ends
-- with the first one that returns, or panics under a context that is done before the backoff is.
pub supervise_lem :
    (before : List Attempt) (a : Attempt) (rest : List Attempt)
    → All GoesOn before
    → ¬ GoesOn a
    → (supervise before ≡ record { runs = length before; ended = false })
      × (supervise (before ++ a ∷ rest) ≡ record { runs = suc (length before); ended = true })
unfolding supervise
supervise_lem [] a rest h stops = (refl, stop_lem a rest stops)
  where
    stop_lem :
        (a : Attempt) (rest : List Attempt)
        → ¬ GoesOn a
        → supervise (a ∷ rest) ≡ record { runs = 1; ended = true }
    stop_lem a rest stops = grind arith
supervise_lem (b ∷ before) a rest h stops = ground (arith, supervise_lem before a rest h.1 stops)
