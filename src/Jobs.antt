-- ===== src/Jobs.antt =====
-- jobs/jobs.go and jobs/daily.go: periodic and daily work. The work acts on a world `W`; timers and
-- contexts are the environment's: what a loop's select receives is a list of events.
pub mod Schedule
pub mod Loop
use neokit.Base.{
  ℕ, ◌<◌, Bool, List, if◌then◌else◌, none, ℤ, ◌<ℤ◌, Option, false, ltb_ℤ, not, some, leb_ℤ, pos,
  suc, true, ◌≤ℤ◌, [], ◌||◌, ◌≤◌, pos_part, ◌∷◌,
}
use neokit.Clock.{Instant, Duration, after, sub}
use neokit.Lifecycle.{Outcome, fine, failed, panicked}

-- What the select of a loop receives.
pub data Event : Type 0 where
  done : Event
  fires : Event

-- A loop that has returned, or waits at its select.
pub record Run (W : Type 0) : Type 0 where
  pub world : W
  pub returned : Bool

-- The for loop of Job.Run.
unfoldable pub loop : {W : Type 0} → (W → W) → List Event → W → Run W
loop step [] w = record { world = w; returned = false }
loop step (done ∷ events) w = record { world = w; returned = true }
loop step (fires ∷ events) w = loop step events (step w)

-- The calendar of a location: the day of an instant, numbered, and time.Date at a time of a day
-- (a day's successor is the next number, as Date normalises a day past the month's end). The laws
-- are those of a zone whose offset does not change across midnight: a time of a later day is
-- later, a proper time of an earlier day is not, and times of day follow the days.
pub record Zone : Type 0 where
  pub day : Instant → ℕ
  pub date : ℕ → ℕ → ℕ → Instant
  pub date_later : (t : Instant) (d h m : ℕ) → day t < d → t <ℤ date d h m
  pub date_earlier : (t : Instant) (d h m : ℕ) → h < 24 → m < 60 → d < day t → date d h m ≤ℤ t
  pub date_mono : (d d' h m : ℕ) → d ≤ d' → date d h m ≤ℤ date d' h m

module _ (Context W E : Type 0) where
  -- What Job and Daily share; `do` is none where the field is nil. `warn` is the logger's line.
  pub record Work : Type 0 where
    pub timeout : Duration
    pub run_at_start : Bool
    pub work : Option (Context → W → W × Outcome E)
    pub on_error : Option (Context → E → W → W)
    pub warn : Context → E → W → W

  pub record Job : Type 0 where
    pub base : Work
    pub every : Duration

  pub record Daily : Type 0 where
    pub base : Work
    pub hour : ℤ
    pub minute : ℤ

module _ {Context W E : Type 0} (with_timeout : Context → Duration → Context) where
  abbrev pub report : Work Context W E → Context → E → W → W
  report j ctx e w = elim j.on_error [ none ↦ j.warn ctx e w | some handle ↦ handle ctx e w ]

  -- tick: one run, bounded if there is a timeout; a panic is contained and only an error reported.
  unfoldable pub tick : Work Context W E → (Context → W → W × Outcome E) → Context → W → W
  tick j work ctx w =
      let ctx' = if ltb_ℤ (pos 0) j.timeout then with_timeout ctx j.timeout else ctx in
      let (w', out) = work ctx' w in
      elim out [ fine ↦ w' | failed e ↦ report j ctx' e w' | panicked ↦ w' ]

  -- Job.Run; `none` is its panic.
  unfoldable pub run_job : Job Context W E → Context → List Event → W → Option (Run W)
  unfolding loop
  run_job j ctx events w = if leb_ℤ j.every (pos 0) then none else elim j.base.work [
    | none ↦ none
    | some work ↦
        let step = tick j.base work ctx in
        some (loop step events (if j.base.run_at_start then step w else w))
  ]

-- Daily.Next: the time of the day of `from`, or of the day after.
unfoldable pub next_at : Zone → ℕ → ℕ → Instant → Instant
next_at z hour minute from =
    let next = z.date (z.day from) hour minute in
    if not (after next from) then z.date (suc (z.day from)) hour minute else next

-- Daily.delay
unfoldable pub delay : Zone → ℕ → ℕ → Instant → Duration
unfolding next_at sub
delay z hour minute now = sub (next_at z hour minute now) now

-- The for loop of Daily.Run: an event comes with what the clock says when the loop begins to
-- wait for it; `arm` is the new timer.
unfoldable pub daily_loop :
    {W : Type 0}
    → (Duration → W → W)
    → (Instant → Duration)
    → (W → W)
    → List (Instant × Event)
    → W
    → Run W
daily_loop arm wait step [] w = record { world = w; returned = false }
daily_loop arm wait step ((now, done) ∷ events) w = record {
  world = arm (wait now) w;
  returned = true;
}
daily_loop arm wait step ((now, fires) ∷ events) w =
    daily_loop arm wait step events (step (arm (wait now) w))

module _ {Context W E : Type 0} (with_timeout : Context → Duration → Context) where
  -- Daily.Run
  unfoldable pub run_daily :
      Zone
      → (Duration → W → W)
      → Daily Context W E
      → Context
      → List (Instant × Event)
      → W
      → Option (Run W)
  unfolding daily_loop delay
  run_daily z arm d ctx events w =
      if ltb_ℤ d.hour (pos 0) || ltb_ℤ (pos 23) d.hour
      then none
      else if ltb_ℤ d.minute (pos 0) || ltb_ℤ (pos 59) d.minute
      then none
      else elim d.base.work [
        | none ↦ none
        | some work ↦
            let step = tick with_timeout d.base work ctx in
            let wait = delay z (pos_part d.hour) (pos_part d.minute) in
            some (daily_loop arm wait step events (if d.base.run_at_start then step w else w))
      ]
