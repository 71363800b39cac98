-- ===== src/Examples/Sweeps.antt =====
-- A sweep of a table with one device, at its start and twice after.
use neokit.Base.{[], pos, ℕ, ◌≡◌, ◌*◌, String, false, some, refl, ◌∷◌}
use neokit.Clock.{Duration, second}
use neokit.Text.{codes}
use neokit.Jobs.{done, fires, Run, Job, run_job}
use neokit.Jobs.Loop.{cancelled}
use neokit.Session.{Session}
use neokit.Session.Sqlite.{session_by_token, create_session}
use neokit.Oidcauth.Sweep.Keeping.{World, job, sweep_job-session_by_token}
use neokit.Examples.Devices.{json, table, table-Reach, hash}

abbrev unbounded : ℕ → Duration → ℕ
unbounded ctx d = ctx

abbrev ignored : ℕ → String → World → World
ignored ctx e w = w

-- The device as the table gives it back: its times are cut to the second.
abbrev laptop : Session
laptop = record {
  id = "laptop";
  subject = codes "alice";
  name = codes "Alice";
  email = codes "alice@example.org";
  groups = [];
  owner = false;
  user_agent = [];
  created_at = pos (100 * second);
  last_seen_at = pos (100 * second);
  expires_at = pos (900 * second);
}

laptop-found : session_by_token json hash table ≡ some laptop
unfolding session_by_token create_session
laptop-found = refl

abbrev start : World
start = record { rows = table; clock = λ n. pos (500 * second); reads = 0; lines = [] }

sweep_job-session_by_token_example :
    (j : Job ℕ World String) × (r : Run World) × (job unbounded ignored json hash laptop ≡ some j)
    × (run_job unbounded j 0 (fires ∷ fires ∷ done ∷ []) start ≡ some r)
    × (r.returned ≡ cancelled (fires ∷ fires ∷ done ∷ []))
    × (session_by_token json hash r.world.rows ≡ some laptop)
sweep_job-session_by_token_example =
    sweep_job-session_by_token unbounded ignored json hash laptop 0 (fires ∷ fires ∷ done ∷ [])
      start table-Reach laptop-found (λ n. refl)
