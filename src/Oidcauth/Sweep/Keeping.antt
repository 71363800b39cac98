-- ===== src/Oidcauth/Sweep/Keeping.antt =====
-- The sweep over the SQLite store: who stays signed in.
use neokit.Base.{
  List, suc, ℕ, ◌⊎◌, inr, ◌∷◌, String, Option, ◌∙◌, ◌≡◌, ltb, some, true, refl, Bool, zero,
  if◌then◌else◌, false, none, arith,
}
use neokit.Clock.{Instant, Duration, after}
use neokit.Jobs.{Event, Run, Job, run_job, tick}
use neokit.Jobs.Loop.{iterate, fired, cancelled, run_job_lem}
use neokit.Session.{Session}
use neokit.Session.Sqlite.{Row, Json, session_by_token, delete_expired_sessions}
use neokit.Session.Sqlite.Rows.{Reach, sweeps}
use neokit.Session.Sqlite.Answers.{session_by_token-delete_expired_sessions}
use neokit.Oidcauth.Sweep.{sweep, sweep_job, sweep_timeout, sweep_interval}

-- The sessions table, and a clock with how often it was read.
pub record World : Type 0 where
  pub rows : List Row
  pub clock : ℕ → Instant
  pub reads : ℕ
  pub lines : List ℕ

abbrev pub now : World → World × Instant
now w = (record w { reads = suc w.reads }, w.clock w.reads)

abbrev pub info : ℕ → World → World
info n w = record w { lines = n ∷ w.lines }

unfoldable pub delete_rows : {E : Type 0} → Instant → World → World × (E ⊎ ℕ)
delete_rows t w =
    let (left, n) = delete_expired_sessions t w.rows in (record w { rows = left }, inr n)

-- A session that the table still finds, and that expires after every reading of the clock.
Kept : Json → String → Session → World → Type 0
Kept json h s w =
    Reach json w.rows
    × (session_by_token json h w.rows ≡ some s)
    × ((n : ℕ) → after s.expires_at (w.clock n) ≡ true)

module _ {Context E : Type 0} (with_timeout : Context → Duration → Context)
    (warn : Context → E → World → World) (json : Json) (h : String) (s : Session) where
  abbrev pub job : Option (Job Context World E)
  job = sweep_job now info warn (some delete_rows)

  swept-Kept :
      (w : World)
      → Kept json h s w
      → Kept json h s (record w {
        rows = (delete_expired_sessions (w.clock w.reads) w.rows).0;
        reads = suc w.reads;
      })
  unfolding Kept
  swept-Kept w (r, e, k) = (
    sweeps (w.clock w.reads) r,
    (session_by_token-delete_expired_sessions json (w.clock w.reads) h r).0
        ∙ rw (e, k w.reads) refl,
    k,
  )

  -- A line of the log changes nothing of it.
  logged :
      (b : Bool) (n : ℕ) (w : World) → Kept json h s w → Kept json h s (if b then info n w else w)
  unfolding Kept
  logged true n w k = k
  logged false n w k = k

  one_tick :
      (j : Job Context World E) (ctx : Context) (w : World)
      → Kept json h s w
      → Kept json h s (tick with_timeout j.base (sweep now info warn delete_rows) ctx w)
  unfolding tick sweep delete_rows
  one_tick j ctx w k =
      logged (ltb 0 (delete_expired_sessions (w.clock w.reads) w.rows).1) _ _ (swept-Kept w k)

  ticks-Kept :
      (j : Job Context World E) (ctx : Context) (n : ℕ) (w : World)
      → Kept json h s w
      → Kept json h s (iterate n (tick with_timeout j.base (sweep now info warn delete_rows) ctx) w)
  ticks-Kept j ctx zero w k = k
  ticks-Kept j ctx (suc n) w k = ticks-Kept j ctx n _ (one_tick j ctx w k)

  -- However long the sweep runs over the SQLite store, a session that the table finds, and that
  -- expires after every time the clock gives, is found by its token as before.
  pub sweep_job-session_by_token :
      (ctx : Context) (events : List Event) (w : World)
      → Reach json w.rows
      → session_by_token json h w.rows ≡ some s
      → ((n : ℕ) → after s.expires_at (w.clock n) ≡ true)
      → (j : Job Context World E) × (r : Run World) × (job ≡ some j)
        × (run_job with_timeout j ctx events w ≡ some r)
        × (r.returned ≡ cancelled events)
        × (session_by_token json h r.world.rows ≡ some s)
  unfolding sweep_job Kept
  sweep_job-session_by_token ctx events w r e k = (
    j,
    record { world = iterate (suc (fired events)) step w; returned = cancelled events },
    refl,
    run_job_lem with_timeout j ctx events w (sweep now info warn delete_rows) (ground arith) refl,
    refl,
    found (iterate (suc (fired events)) step w) (ticks-Kept j ctx (suc (fired events)) w (r, e, k)),
  )
    where
      j : Job Context World E
      j = record {
        base = record {
          timeout = sweep_timeout;
          run_at_start = true;
          work = some (sweep now info warn delete_rows);
          on_error = none;
          warn = warn;
        };
        every = sweep_interval;
      }

      step : World → World
      step = tick with_timeout j.base (sweep now info warn delete_rows) ctx

      found : (w : World) → Kept json h s w → session_by_token json h w.rows ≡ some s
      found w k = k.1
