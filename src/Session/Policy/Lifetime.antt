-- ===== src/Session/Policy/Lifetime.antt =====
-- When a session may still authenticate, and what the expiry that a renewal writes promises.
use neokit.Base.{◌≡◌, ◌↔◌, ◌⊎◌, ◌≢◌, inr, leb_ℤ, pos, ◌≤ℤ◌, ◌<ℤ◌, true, arith, +ℤ_parts}
use neokit.Clock.{Instant, Duration, max_duration, zero_time, add, sub}
use neokit.Clock.Laws.{sub_reaches}
use neokit.Session.{Session}
use neokit.Session.Policy.{Policy, with_defaults, expiry_for, live, needs_touch}

-- The absolute cap and the idle limit that apply, defaults filled in.
abbrev pub cap : Policy → Duration
cap p = (with_defaults p).max_lifetime

abbrev pub idle : Policy → Duration
idle p = (with_defaults p).ttl

abbrev pub gap : Policy → Duration
gap p = (with_defaults p).touch_interval

pub cap_pos : (p : Policy) → pos 0 <ℤ cap p
unfolding with_defaults
cap_pos p = ground arith

cap_small : (p : Policy) → p.max_lifetime ≤ℤ max_duration → cap p ≤ℤ max_duration
unfolding with_defaults
cap_small p h = ground arith

pub idle_pos : (p : Policy) → pos 0 <ℤ idle p
unfolding with_defaults
idle_pos p = ground arith

gap_pos : (p : Policy) → pos 0 <ℤ gap p
unfolding with_defaults
gap_pos p = ground arith

gap_small : (p : Policy) → p.touch_interval ≤ℤ max_duration → gap p ≤ℤ max_duration
unfolding with_defaults
gap_small p h = ground arith

-- Whether the cap has come.
cap_reached :
    (p : Policy) (s : Session) (now : Instant)
    → p.max_lifetime ≤ℤ max_duration
    → (leb_ℤ (cap p) (sub now s.created_at) ≡ true) ↔ (add s.created_at (cap p) ≤ℤ now)
cap_reached p s now h =
    sub_reaches (cap p) now s.created_at (omega (arith, cap_pos p)) (cap_small p h)

-- For a policy whose cap fits a duration: a session authenticates exactly when neither its idle
-- expiry nor its absolute cap has come; an instant that is not recorded does not count.
pub live_iff :
    (p : Policy) (s : Session) (now : Instant)
    → p.max_lifetime ≤ℤ max_duration
    → (live p s now ≡ true) ↔ (
        ((s.expires_at ≡ zero_time) ⊎ (now <ℤ s.expires_at))
        × ((s.created_at ≡ zero_time) ⊎ (now <ℤ add s.created_at (cap p))))
unfolding live
live_iff p s now h = (
  λ e. (ground arith, ground (arith, (cap_reached p s now h).1)),
  λ e. ground (arith, (cap_reached p s now h).0),
)

-- The expiry of a session whose creation is recorded is the earlier of the idle limit after the
-- renewal and the cap after the creation.
pub expiry_for_bounds :
    (p : Policy) (created now : Instant)
    → created ≢ zero_time
    → let e = expiry_for p created now in
      (e ≤ℤ add now (idle p))
      × (e ≤ℤ add created (cap p))
      × ((e ≡ add now (idle p)) ⊎ (e ≡ add created (cap p)))
unfolding expiry_for
expiry_for_bounds p created now h = (ground arith, ground arith, ground arith)

expiry_pos :
    (p : Policy) (created now : Instant)
    → pos 0 <ℤ created
    → pos 0 <ℤ now
    → pos 0 <ℤ expiry_for p created now
unfolding expiry_for
expiry_pos p created now h k =
    ground (arith, cap_pos p, idle_pos p, +ℤ_parts now (idle p), +ℤ_parts created (cap p))

-- For a policy whose cap fits a duration and a session created and renewed after the zero time:
-- with the expiry that a renewal writes, the session authenticates exactly until that expiry, so
-- that what a sweep by the expiry leaves is what may still authenticate, and no more.
pub renewed_live_iff :
    (p : Policy) (s : Session) (renewed now : Instant)
    → p.max_lifetime ≤ℤ max_duration
    → pos 0 <ℤ s.created_at
    → pos 0 <ℤ renewed
    → let e = expiry_for p s.created_at renewed in
      (live p (record s { expires_at = e }) now ≡ true) ↔ (now <ℤ e)
renewed_live_iff p s renewed now h c k = (
  λ l. ground (arith, (live_iff p t now h).0 l, expiry_pos p s.created_at renewed c k),
  λ l.
      (live_iff p t now h).1
        (inr l, inr (ground (arith, expiry_for_bounds p s.created_at renewed (λ z. ground arith)))),
)
  where
    t : Session
    t = record s { expires_at = expiry_for p s.created_at renewed }

-- For a policy whose touch interval fits a duration: a write of the last use is due exactly when
-- the interval has passed since the last such write.
pub needs_touch_iff :
    (p : Policy) (s : Session) (now : Instant)
    → p.touch_interval ≤ℤ max_duration
    → (needs_touch p s now ≡ true) ↔ (add s.last_seen_at (gap p) ≤ℤ now)
unfolding needs_touch
needs_touch_iff p s now h =
    sub_reaches (gap p) now s.last_seen_at (omega (arith, gap_pos p)) (gap_small p h)
