-- ===== src/Clock.antt =====
-- Go's time.Time and time.Duration as the packages use them, and the clock package
-- (clock/clock.go). An instant is the integer of nanoseconds since Go's zero time, a duration the
-- integer of nanoseconds that it lasts. Durations are 64-bit: the difference of two instants is
-- clamped as time.Time.Sub clamps it. Instants do not overflow.
pub mod Laws
use neokit.Base.{
  ℕ, ◌+◌, ◌*◌, ◌^◌, ◌-◌, ℤ, pos, negsuc, ◌+ℤ◌, ◌-ℤ◌, ltb_ℤ, leb_ℤ, Bool, true, false, if◌then◌else◌,
  ◌==◌,
}

abbrev pub Instant : Type 0
Instant = ℤ

abbrev pub Duration : Type 0
Duration = ℤ

abbrev pub second : ℕ
second = 1_000_000_000

abbrev pub hour : ℕ
hour = 3600 * second

abbrev pub zero_time : Instant
zero_time = pos 0

abbrev pub max_duration : Duration
max_duration = pos (2 ^ 63 - 1)

abbrev pub min_duration : Duration
min_duration = negsuc (2 ^ 63 - 1)

-- IsZero
abbrev pub is_zero : Instant → Bool
is_zero (pos n) = n == 0
is_zero (negsuc n) = false

-- Before, After
abbrev pub before : Instant → Instant → Bool
before t u = ltb_ℤ t u

abbrev pub after : Instant → Instant → Bool
after t u = ltb_ℤ u t

-- Add
abbrev pub add : Instant → Duration → Instant
add t d = t +ℤ d

-- Sub
unfoldable pub sub : Instant → Instant → Duration
sub t u =
    let d = t -ℤ u in
    if ltb_ℤ max_duration d then max_duration else if ltb_ℤ d min_duration then min_duration else d

-- clock.Fake: a clock that moves only when it is told to.
pub record Fake : Type 0 where
  pub current : Instant

unfoldable pub new_fake : Instant → Fake
new_fake t = record { current = t }

unfoldable pub now : Fake → Instant
now f = f.current

unfoldable pub advance : Fake → Duration → Fake
advance f d = record f { current = add f.current d }

unfoldable pub set_to : Fake → Instant → Fake
set_to f t = record f { current = t }
