-- ===== src/Backup/Streaming.antt =====
-- backup/backup.go: Backup, Run and schedule. The temporary directories are the list of their
-- names; the removal of one that is there succeeds.
use neokit.Base.{
  ℕ, ◌*◌, pos, Bool, true, false, not, List, [], ◌∷◌, Option, none, some, if◌then◌else◌, keep, take,
  length, ltb, ◌≡◌, All, is_some, arith, refl, ltb_ℤ, sym, ap, ◌||◌, ◌∙◌,
}
use neokit.Text.{Text, text_eq, text_eq_iff, trim_space}
use neokit.Clock.{Instant, Duration, second}
use neokit.Lifecycle.{Outcome}
use neokit.Jobs.{Daily, Event, Run, Zone, run_daily}
use neokit.Oidcauth.{blank}
use neokit.Backup.{ClockTime, Service, Options, new_service, valid}

-- What the operating system, the snapshot and the writer answer: the directory that MkdirTemp makes,
-- the snapshot that SnapshotTo writes, whether it opens, and how many of its bytes the writer takes.
pub record StreamAnswers : Type 0 where
  pub temp_dir : Option Text
  pub snapshot : Option (List ℕ)
  pub opens : Bool
  pub accepts : ℕ

pub data StreamError : Type 0 where
  temp_dir_failed snapshot_failed open_failed stream_failed : StreamError

pub record Streamed : Type 0 where
  pub temp : List Text
  pub sent : List ℕ
  pub error : Option StreamError

-- Backup from the snapshot on.
unfoldable pub copied : StreamAnswers → List ℕ × Option StreamError
copied os = elim os.snapshot [
  | none ↦ ([], some snapshot_failed)
  | some bytes ↦
      if not os.opens
      then ([], some open_failed)
      else if ltb os.accepts (length bytes)
      then (take os.accepts bytes, some stream_failed)
      else (bytes, none)
]

abbrev pub remove_all : Text → List Text → List Text
remove_all dir temp = keep (λ d. not (text_eq d dir)) temp

-- Backup
unfoldable pub backup : StreamAnswers → List Text → Streamed
unfolding copied
backup os temp = elim os.temp_dir [
  | none ↦ record { temp = temp; sent = []; error = some temp_dir_failed }
  | some dir ↦
      let (sent, error) = copied os in
      record { temp = remove_all dir (dir ∷ temp); sent = sent; error = error }
]

abbrev pub schedule_timeout : Duration
schedule_timeout = pos (60 * 60 * second)

wired :
    (b : Bool) (r s : Service)
    → (if not b then none else some r) ≡ some s
    → (b ≡ true) × Path Service r s
wired false r s h = cc
wired true r s h = (refl, cc)

new_service-valid : (o : Options) (s : Service) → new_service o ≡ some s → valid s.at ≡ true
unfolding new_service
new_service-valid o s h = let p = wired _ _ s h in sym (ap (λ t. valid t.at) p.1) ∙ p.0

on_time :
    (at : ClockTime)
    → valid at ≡ true
    → ((ltb_ℤ at.hour (pos 0) || ltb_ℤ (pos 23) at.hour) ≡ false)
      × ((ltb_ℤ at.minute (pos 0) || ltb_ℤ (pos 59) at.minute) ≡ false)
unfolding valid
on_time at h = (ground (arith, h), ground (arith, h))

module _ {Context W E : Type 0} (with_timeout : Context → Duration → Context) where
  -- schedule, of WriteDaily and of the logger's line on its error.
  unfoldable pub schedule :
      (Context → W → W × Outcome E) → (Context → E → W → W) → ClockTime → Daily Context W E
  schedule write_daily warn at = record {
    base = record {
      timeout = schedule_timeout;
      run_at_start = true;
      work = some write_daily;
      on_error = none;
      warn = warn;
    };
    hour = at.hour;
    minute = at.minute;
  }

  -- Run; `none` is a panic of the daily job.
  unfoldable pub run :
      Zone
      → (Duration → W → W)
      → (Context → W → W × Outcome E)
      → (Context → E → W → W)
      → Service
      → Context
      → List (Instant × Event)
      → W
      → Option (Run W)
  unfolding schedule
  run z arm write_daily warn s ctx events w =
      if blank (trim_space s.dir)
      then some (record { world = w; returned = true })
      else run_daily with_timeout z arm (schedule write_daily warn s.at) ctx events w

  -- The schedule of a service that New has wired never panics.
  pub run-new_service :
      (z : Zone) (arm : Duration → W → W) (write_daily : Context → W → W × Outcome E)
      (warn : Context → E → W → W) (o : Options) (s : Service) (ctx : Context)
      (events : List (Instant × Event)) (w : W)
      → new_service o ≡ some s
      → is_some (run z arm write_daily warn s ctx events w) ≡ true
  unfolding run run_daily
  run-new_service z arm write_daily warn o s ctx events w h =
      let t = on_time s.at (new_service-valid o s h) in
      elim (blank (trim_space s.dir))
        as (λ b.
          is_some (
            if b
            then some (record { world = w; returned = true })
            else run_daily with_timeout z arm (schedule write_daily warn s.at) ctx events w)
          ≡ true) [ true ↦ refl | false ↦ rw (t.0, t.1) refl ]

keep_others :
    (dir : Text) (temp : List Text)
    → All (λ d. text_eq d dir ≡ false) temp
    → keep (λ d. not (text_eq d dir)) temp ≡ temp
keep_others dir [] h = refl
keep_others dir (d ∷ temp) h = ground (arith, h, keep_others dir temp h.1)

abbrev pub Fresh : Option Text → List Text → Type 0
Fresh none temp = Unit
Fresh (some dir) temp = All (λ d. text_eq d dir ≡ false) temp

-- Where the directory that MkdirTemp makes is new, every way out of Backup leaves the temporary
-- directories as they were.
pub backup_clean :
    (dir : Option Text) (os : StreamAnswers) (temp : List Text)
    → Fresh dir temp
    → (backup (record os { temp_dir = dir }) temp).temp ≡ temp
unfolding backup
backup_clean none os temp h = refl
backup_clean (some dir) os temp h =
    let own : text_eq dir dir ≡ true = (text_eq_iff dir dir).1 refl in
    rw (own) (keep_others dir temp h)

-- What is sent without an error is the whole snapshot.
pub copied_whole :
    (os : StreamAnswers) (bytes : List ℕ)
    → os.snapshot ≡ some bytes
    → (copied os).1 ≡ none
    → (copied os).0 ≡ bytes
unfolding copied
copied_whole os bytes h k = ground (arith, h, k)
