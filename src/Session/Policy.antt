-- ===== src/Session/Policy.antt =====
-- session/policy.go: how long a session lives.
pub mod Lifetime
use neokit.Base.{ℕ, ◌*◌, ℤ, pos, leb_ℤ, not, Bool, true, false, if◌then◌else◌, ◌&&◌}
use neokit.Clock.{Instant, Duration, hour, is_zero, after, add, sub}
use neokit.Session.{Session}

pub record Policy : Type 0 where
  pub ttl : Duration
  pub max_lifetime : Duration
  pub touch_interval : Duration

abbrev pub default_policy : Policy
default_policy = record {
  ttl = pos (30 * 24 * hour);
  max_lifetime = pos (30 * 24 * hour);
  touch_interval = pos hour;
}

-- withDefaults, one field at a time: what is not positive is unset.
abbrev pub or_default : Duration → Duration → Duration
or_default d default = if leb_ℤ d (pos 0) then default else d

unfoldable pub with_defaults : Policy → Policy
with_defaults p = record {
  ttl = or_default p.ttl default_policy.ttl;
  max_lifetime = or_default p.max_lifetime default_policy.max_lifetime;
  touch_interval = or_default p.touch_interval default_policy.touch_interval;
}

unfoldable pub expiry_for : Policy → Instant → Instant → Instant
expiry_for p created_at now =
    let q = with_defaults p in
    let expires = add now q.ttl in
    let hard = add created_at q.max_lifetime in
    if is_zero created_at then expires else if after expires hard then hard else expires

unfoldable pub live : Policy → Session → Instant → Bool
live p s now =
    let q = with_defaults p in
    if not (is_zero s.expires_at) && not (after s.expires_at now)
    then false
    else if not (is_zero s.created_at) && leb_ℤ q.max_lifetime (sub now s.created_at)
    then false
    else true

unfoldable pub needs_touch : Policy → Session → Instant → Bool
needs_touch p s now = leb_ℤ (with_defaults p).touch_interval (sub now s.last_seen_at)
