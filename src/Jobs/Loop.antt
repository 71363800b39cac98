-- ===== src/Jobs/Loop.antt =====
-- How often the work runs (jobs/jobs.go, jobs/daily.go).
use neokit.Base.{
  ℕ, List, suc, Bool, [], zero, ◌≡◌, false, true, map, ◌∷◌, pos, refl, ◌≢◌, ◌<ℤ◌, none, some, ◌↔◌,
  ◌≤ℤ◌, if◌then◌else◌, arith,
}
use neokit.Clock.{Instant, Duration}
use neokit.Jobs.{
  Event, done, fires, Job, Daily, tick, loop, run_job, daily_loop, run_daily, Outcome, Zone,
}

abbrev pub iterate {ℓ} : {W : Type ℓ} → ℕ → (W → W) → W → W
iterate zero f w = w
iterate (suc n) f w = iterate n f (f w)

-- The timer events before the first cancellation, and whether there is one.
abbrev pub fired : List Event → ℕ
fired [] = 0
fired (done ∷ events) = 0
fired (fires ∷ events) = suc (fired events)

abbrev pub cancelled : List Event → Bool
cancelled [] = false
cancelled (done ∷ events) = true
cancelled (fires ∷ events) = cancelled events

loop_lem :
    {W : Type 0} (step : W → W) (events : List Event) (w : W)
    → loop step events w
      ≡ record { world = iterate (fired events) step w; returned = cancelled events }
unfolding loop
loop_lem step [] w = refl
loop_lem step (done ∷ events) w = refl
loop_lem step (fires ∷ events) w = loop_lem step events (step w)

daily_loop_lem :
    {W : Type 0} (arm : Duration → W → W) (wait : Instant → Duration) (step : W → W)
    (events : List (Instant × Event)) (w : W)
    → (daily_loop arm wait step events w).returned ≡ cancelled (map (λ e. e.1) events)
unfolding daily_loop
daily_loop_lem arm wait step [] w = refl
daily_loop_lem arm wait step ((now, done) ∷ events) w = refl
daily_loop_lem arm wait step ((now, fires) ∷ events) w = daily_loop_lem arm wait step events _

module _ {Context W E : Type 0} (with_timeout : Context → Duration → Context) where
  -- A job with a positive interval runs its work once at each tick before its context is done,
  -- and once before the first if it runs at the start, and it returns exactly when the context
  -- is done: no error and no panic of a run ends or delays the loop.
  pub run_job_lem :
      (j : Job Context W E) (ctx : Context) (events : List Event) (w : W)
      (work : Context → W → W × Outcome E)
      → pos 0 <ℤ j.every
      → j.base.work ≡ some work
      → run_job with_timeout j ctx events w
        ≡ some (record {
          world =
              iterate
                (if j.base.run_at_start then suc (fired events) else fired events)
                (tick with_timeout j.base work ctx)
                w;
          returned = cancelled events;
        })
  unfolding run_job
  run_job_lem j ctx events w work h e = ground (
    arith,
    loop_lem (tick with_timeout j.base work ctx) events w,
    loop_lem (tick with_timeout j.base work ctx) events (tick with_timeout j.base work ctx w),
  )

  -- Daily.Run runs, and does not panic, exactly when its hour and minute are a time of day and
  -- there is work to do.
  pub run_daily_panics :
      (z : Zone) (arm : Duration → W → W) (d : Daily Context W E) (ctx : Context)
      (events : List (Instant × Event)) (w : W)
      → (run_daily with_timeout z arm d ctx events w ≢ none) ↔ (
          (pos 0 ≤ℤ d.hour)
          × (d.hour ≤ℤ pos 23)
          × (pos 0 ≤ℤ d.minute)
          × (d.minute ≤ℤ pos 59)
          × (d.base.work ≢ none))
  unfolding run_daily
  run_daily_panics z arm d ctx events w = (λ h. ground (arith, h), λ h k. ground arith)
