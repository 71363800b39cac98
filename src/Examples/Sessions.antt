-- ===== src/Examples/Sessions.antt =====
-- Sessions with a short policy: ten minutes of idle time, an hour in all.
use neokit.Base.{ℕ, ◌*◌, ◌≡◌, ◌↔◌, [], pos, ◌<ℤ◌, true, arith}
use neokit.Clock.{Instant, second}
use neokit.Session.{Session}
use neokit.Text.{codes}
use neokit.Session.Policy.{Policy, live, expiry_for}
use neokit.Session.Policy.Lifetime.{renewed_live_iff}

abbrev minute : ℕ
minute = 60 * second

abbrev short : Policy
short = record { ttl = pos (10 * minute); max_lifetime = pos (60 * minute); touch_interval = pos 0 }

abbrev alice : Session
alice = record {
  id = "s1";
  subject = codes "alice";
  name = codes "Alice";
  email = codes "alice@example.org";
  groups = [];
  owner = true;
  user_agent = [];
  created_at = pos (1000 * minute);
  last_seen_at = pos (1000 * minute);
  expires_at = pos (1010 * minute);
}

abbrev at : ℕ → Instant
at m = pos (m * minute)

renewed_live_iff_example :
    let e = expiry_for short (at 1000) (at 1005) in
    (live short (record alice { expires_at = e }) (at 1012) ≡ true) ↔ (at 1012 <ℤ e)
renewed_live_iff_example =
    renewed_live_iff short alice (at 1005) (at 1012) (ground arith) (ground arith) (ground arith)
