-- ===== src/Jobs/Schedule.antt =====
-- When a daily job fires (jobs/daily.go).
use neokit.Base.{ℕ, ◌<ℤ◌, pos, ◌≡◌, ◌⊎◌, suc, ◌≤ℤ◌, arith, +ℤ_parts, ◌<◌}
use neokit.Clock.{Instant}
use neokit.Clock.Laws.{sub_reaches}
use neokit.Jobs.{Zone, next_at, delay}

next_at_after : (z : Zone) (h m : ℕ) (from : Instant) → from <ℤ next_at z h m from
unfolding next_at
next_at_after z h m from = ground (arith, z.date_later from (suc (z.day from)) h m)

-- At a proper time of day Next is the first occurrence strictly after the instant given: it lies after it, it is an
-- occurrence of the time of day, and no later than any other that lies after it.
pub next_at_first :
    (z : Zone) (h m : ℕ) (from : Instant)
    → h < 24
    → m < 60
    → let next = next_at z h m from in
      (from <ℤ next)
      × ((next ≡ z.date (z.day from) h m) ⊎ (next ≡ z.date (suc (z.day from)) h m))
      × ((d : ℕ) → from <ℤ z.date d h m → next ≤ℤ z.date d h m)
unfolding next_at
next_at_first z h m from hour minute = (
  next_at_after z h m from,
  ground arith,
  λ d k. ground (
    arith,
    z.date_earlier from d h m hour minute,
    z.date_mono (z.day from) d h m,
    z.date_mono (suc (z.day from)) d h m,
  ),
)

-- The wait for the next occurrence is never zero or negative, so that a job that has just fired
-- does not fire again at once.
pub delay_positive : (z : Zone) (h m : ℕ) (now : Instant) → pos 0 <ℤ delay z h m now
unfolding delay
delay_positive z h m now =
    let first = next_at_after z h m now in
    let next = next_at z h m now in
    ground (
      arith,
      first,
      (sub_reaches (pos 1) next now (omega arith) (omega arith)).1,
      +ℤ_parts now (pos 1),
    )
