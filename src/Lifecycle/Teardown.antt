-- ===== src/Lifecycle/Teardown.antt =====
-- What a shutdown does with the steps that were pushed (lifecycle/lifecycle.go).
use neokit.Base.{
  ap, pos, ltb_ℤ, String, List, Option, [], ◌≡◌, ◌++◌, some, sym, ◌∷◌, none, refl, reverse, arith,
  false, if◌then◌else◌, is_some, true, ◌&&◌, not, length, length-map,
}
use mathlib.Core.List.{reverse-cons, append-nil, map-append}
use neokit.Clock.{Duration}
use neokit.Lifecycle.{
  Outcome, fine, failed, panicked, StepError, step_failed, panicked_during_shutdown, StepFn, Step,
  Stack, push, len, names, run_step, note_error, sweep, shutdown,
}

-- What one step is reported as: nothing, its error or its panic, under its name.
abbrev pub report : {E : Type 0} → String → Outcome E → List (String × StepError E)
report name fine = []
report name (failed e) = (name, step_failed e) ∷ []
report name panicked = (name, panicked_during_shutdown) ∷ []

abbrev pub bound_by :
    {Context : Type 0} → (Context → Duration → Context) → Context → Duration → Context
bound_by with_timeout ctx each = if ltb_ℤ (pos 0) each then with_timeout ctx each else ctx

module _ {Context W E : Type 0} (with_timeout : Context → Duration → Context) where
  -- The world after the steps, last pushed first; the first pushed runs in what the others left.
  abbrev pub unwound : Context → Duration → List (Step Context W E) → W → W
  unwound ctx each [] w = w
  unwound ctx each (st ∷ steps) w =
      (st.fn (bound_by with_timeout ctx each) (unwound ctx each steps w)).0

  -- The reports of the steps, in the order in which they ran.
  abbrev pub reports :
      Context → Duration → List (Step Context W E) → W → List (String × StepError E)
  reports ctx each [] w = []
  reports ctx each (st ∷ steps) w =
      reports ctx each steps w
      ++ report st.name (st.fn (bound_by with_timeout ctx each) (unwound ctx each steps w)).1

  noted :
      (name : String) (w : W) (out : Outcome E) (errs : List (String × StepError E))
      → let r : W × Option (StepError E) = elim out [
        | fine ↦ (w, none)
        | failed e ↦ (w, some (step_failed e))
        | panicked ↦ (w, some panicked_during_shutdown)
      ] in
        Path
          (W × List (String × StepError E))
          (r.0, note_error name r.1 errs)
          (w, errs ++ report name out)
  noted name w fine errs = ap (λ l. (w, l)) (sym (append-nil errs))
  noted name w (failed e) errs = refl
  noted name w panicked errs = refl

  run_step-report :
      (ctx : Context) (each : Duration) (st : Step Context W E) (w : W)
      (errs : List (String × StepError E))
      → let r = run_step with_timeout ctx each st w in
        let (w', out) = st.fn (bound_by with_timeout ctx each) w in
        Path
          (W × List (String × StepError E))
          (r.0, note_error st.name r.1 errs)
          (w', errs ++ report st.name out)
  unfolding run_step
  run_step-report ctx each st w errs =
      let ran = st.fn (bound_by with_timeout ctx each) w in noted st.name ran.0 ran.1 errs

  sweep-append :
      (ctx : Context) (each : Duration) (xs ys : List (Step Context W E)) (w : W)
      (errs : List (String × StepError E))
      → sweep with_timeout ctx each (xs ++ ys) w errs ≡ (
          let (w', errs') = sweep with_timeout ctx each xs w errs in
          sweep with_timeout ctx each ys w' errs')
  unfolding sweep
  sweep-append ctx each [] ys w errs = refl
  sweep-append ctx each (st ∷ xs) ys w errs = sweep-append ctx each xs ys _ _

  sweep-reverse :
      (ctx : Context) (each : Duration) (steps : List (Step Context W E)) (w : W)
      → sweep with_timeout ctx each (reverse steps) w []
        ≡ (unwound ctx each steps w, reports ctx each steps w)
  unfolding sweep
  sweep-reverse ctx each [] w = refl
  sweep-reverse ctx each (st ∷ steps) w =
      rw
        (
          reverse-cons st steps,
          sweep-append ctx each (reverse steps) (st ∷ []) w [],
          sweep-reverse ctx each steps w,
        )
        (run_step-report ctx each st (unwound ctx each steps w) (reports ctx each steps w))

  -- A first Shutdown calls every step, last pushed first, each in the world that the steps pushed
  -- after it left, whatever those returned, and with the timeout of a step where that is positive;
  -- it returns what each step that failed returned, and that a step panicked, under the step's name
  -- and in that order, and leaves a stack that is done and empty.
  pub shutdown_unwinds :
      (ctx : Context) (each : Duration) (s : Stack Context W E) (w : W)
      → s.done ≡ false
      → shutdown with_timeout ctx each s w ≡ record {
        stack = record { steps = []; done = true };
        world = unwound ctx each s.steps w;
        errors = reports ctx each s.steps w;
      }
  unfolding shutdown
  shutdown_unwinds ctx each s w h = rw (h, sweep-reverse ctx each s.steps w)

  -- After a Shutdown a second one changes nothing and reports nothing, whatever world it finds,
  -- and a push registers nothing.
  pub shutdown_twice :
      (ctx ctx' : Context) (each each' : Duration) (s : Stack Context W E) (w w' : W)
      (name : String) (fn : Option (StepFn Context W E))
      → let s' = (shutdown with_timeout ctx each s w).stack in
        (shutdown with_timeout ctx' each' s' w' ≡ record { stack = s'; world = w'; errors = [] })
        × (push name fn s' ≡ s')
  unfolding shutdown push
  shutdown_twice ctx ctx' each each' s w w' name none = (ground arith, refl)
  shutdown_twice ctx ctx' each each' s w w' name (some fn) = (ground arith, ground arith)

-- Names lists the steps in the order of their pushes: a push adds its name at the end, unless the
-- function is nil or the stack is done, and then it adds none; Len counts the names.
pub names-push :
    {Context W E : Type 0} (name : String) (fn : Option (StepFn Context W E))
    (s : Stack Context W E)
    → (names (push name fn s)
        ≡ (if is_some fn && not s.done then names s ++ name ∷ [] else names s))
      × (len (push name fn s) ≡ length (names (push name fn s)))
unfolding names push len
names-push name none s = (refl, sym (length-map (λ st. st.name) _))
names-push name (some fn) s = (
  ground (arith, map-append (λ st. st.name) s.steps (record { name = name; fn = fn } ∷ [])),
  sym (length-map (λ st. st.name) _),
)
