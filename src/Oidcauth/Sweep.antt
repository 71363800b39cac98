-- ===== src/Oidcauth/Sweep.antt =====
-- oidcauth/sweep.go: the job that deletes expired sessions. The store and the clock act on a world
-- `W`; a store that does not delete expired sessions has none of it, and a logger's line is a step.
pub mod Keeping
use neokit.Base.{pos, ℕ, ◌*◌, Option, ◌⊎◌, inl, some, inr, true, if◌then◌else◌, none, ltb}
use neokit.Clock.{Instant, Duration, hour, second}
use neokit.Jobs.{Work, Job}
use neokit.Lifecycle.{Outcome, fine, failed}

abbrev pub sweep_interval : Duration
sweep_interval = pos (24 * hour)

abbrev pub sweep_timeout : Duration
sweep_timeout = pos (30 * second)

module _ {Context W E : Type 0} (now : W → W × Instant) (info : ℕ → W → W)
    (warn : Context → E → W → W) where
  -- The Do of SweepJob.
  unfoldable pub sweep : (Instant → W → W × (E ⊎ ℕ)) → Context → W → W × Outcome E
  sweep delete_expired ctx w =
      let (w', t) = now w in
      let (w'', out) = delete_expired t w' in
      elim out [ inl e ↦ (w'', failed e) | inr n ↦ (if ltb 0 n then info n w'' else w'', fine) ]

  -- SweepJob
  unfoldable pub sweep_job : Option (Instant → W → W × (E ⊎ ℕ)) → Option (Job Context W E)
  unfolding sweep
  sweep_job none = none
  sweep_job (some delete_expired) = some (record {
    base = record {
      timeout = sweep_timeout;
      run_at_start = true;
      work = some (sweep delete_expired);
      on_error = none;
      warn = warn;
    };
    every = sweep_interval;
  })
