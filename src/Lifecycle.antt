-- ===== src/Lifecycle.antt =====
-- lifecycle/lifecycle.go: the stack of teardown steps. Contexts belong to Go's context package:
-- they are a type with the bound that WithTimeout puts on one. What a step does, it does to a
-- world `W`, and it returns nil, an error or a panic. Log lines are not modelled; the signal
-- contexts are calls of os/signal.
pub mod Teardown
use neokit.Base.{
  Bool, String, List, Option, [], if◌then◌else◌, ℕ, false, length, ltb_ℤ, map, reverse, some, ◌∷◌,
  ◌++◌, none, pos, true,
}
use neokit.Clock.{Duration}

pub data Outcome (E : Type 0) : Type 0 where
  fine : Outcome E
  failed : E → Outcome E
  panicked : Outcome E

-- An error that Shutdown collects, wrapped with the step's name.
pub data StepError (E : Type 0) : Type 0 where
  step_failed : E → StepError E
  panicked_during_shutdown : StepError E

abbrev pub note_error :
    {E : Type 0}
    → String
    → Option (StepError E)
    → List (String × StepError E)
    → List (String × StepError E)
note_error name none errs = errs
note_error name (some e) errs = errs ++ (name, e) ∷ []

module _ (Context W E : Type 0) where
  abbrev pub StepFn : Type 0
  StepFn = Context → W → W × Outcome E

  pub record Step : Type 0 where
    pub name : String
    pub fn : StepFn

  pub record Stack : Type 0 where
    pub steps : List Step
    pub done : Bool

  pub record Result : Type 0 where
    pub stack : Stack
    pub world : W
    pub errors : List (String × StepError E)

module _ {Context W E : Type 0} where
  -- The zero Stack.
  abbrev pub empty : Stack Context W E
  empty = record { steps = []; done = false }

  -- Push: a nil function is ignored, and so is a push after the shutdown.
  unfoldable pub push : String → Option (StepFn Context W E) → Stack Context W E → Stack Context W E
  push name none s = s
  push name (some fn) s =
      if s.done then s else record s { steps = s.steps ++ record { name = name; fn = fn } ∷ [] }

  -- PushCloser and Closer: a Close method, or nil, that looks at no context.
  unfoldable pub closer : Option (W → W × Outcome E) → Option (StepFn Context W E)
  closer none = none
  closer (some close) = some (λ ctx w. close w)

  unfoldable pub push_closer :
      String → Option (W → W × Outcome E) → Stack Context W E → Stack Context W E
  unfolding push
  push_closer name none s = s
  push_closer name (some close) s = push name (some (λ ctx w. close w)) s

  -- Len and Names
  unfoldable pub len : Stack Context W E → ℕ
  len s = length s.steps

  unfoldable pub names : Stack Context W E → List String
  names s = map (λ st. st.name) s.steps

  module _ (with_timeout : Context → Duration → Context) where
    -- runStep: bounded if `each` is positive, and a panic becomes an error.
    unfoldable pub run_step : Context → Duration → Step Context W E → W → W × Option (StepError E)
    run_step ctx each st w =
        let (w', out) = st.fn (if ltb_ℤ (pos 0) each then with_timeout ctx each else ctx) w in
        elim out [
          | fine ↦ (w', none)
          | failed e ↦ (w', some (step_failed e))
          | panicked ↦ (w', some panicked_during_shutdown)
        ]

    -- The loop of Shutdown, over the steps in the order in which they run.
    unfoldable pub sweep :
        Context
        → Duration
        → List (Step Context W E)
        → W
        → List (String × StepError E)
        → W × List (String × StepError E)
    unfolding run_step
    sweep ctx each [] w errs = (w, errs)
    sweep ctx each (st ∷ steps) w errs =
        let (w', err) = run_step ctx each st w in
        sweep ctx each steps w' (note_error st.name err errs)

    -- Shutdown
    unfoldable pub shutdown : Context → Duration → Stack Context W E → W → Result Context W E
    unfolding sweep
    shutdown ctx each s w =
        if s.done
        then record { stack = s; world = w; errors = [] }
        else let (w', errs) = sweep ctx each (reverse s.steps) w [] in
          record { stack = record { steps = []; done = true }; world = w'; errors = errs }
