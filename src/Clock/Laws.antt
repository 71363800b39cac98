-- ===== src/Clock/Laws.antt =====
-- What the clamping of a difference leaves true.
use neokit.Base.{◌≡◌, ◌↔◌, pos, ◌≤ℤ◌, leb_ℤ, true, arith, +ℤ_parts, -ℤ_parts}
use neokit.Clock.{Instant, Duration, sub, add, max_duration}

-- A bound that a duration can hold is met by the clamped difference of two instants exactly when
-- the later instant has passed the earlier one by that bound.
pub sub_reaches :
    (d : Duration) (t u : Instant)
    → pos 0 ≤ℤ d
    → d ≤ℤ max_duration
    → (leb_ℤ d (sub t u) ≡ true) ↔ (add u d ≤ℤ t)
unfolding sub
sub_reaches d t u h k = (
  λ e. ground (arith, +ℤ_parts u d, -ℤ_parts t u),
  λ e. ground (arith, +ℤ_parts u d, -ℤ_parts t u),
)
