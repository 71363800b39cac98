-- ===== src/App/Order.antt =====
-- The order of the teardown (app/app.go, app/run.go).
use mathlib.Core.List.{append-nil, append_assoc}
use neokit.Base.{
  List, ◌++◌, ◌≡◌, arith, false, ◌∷◌, [], some, refl, Option, ap, none, true, ◌↔◌, ◌⊎◌, inl, inr,
}
use neokit.Clock.{Duration}
use neokit.Text.{Text, text_eq_iff, codes}
use neokit.Lifecycle.{Stack, Step, StepFn, push}
use neokit.Lifecycle.Teardown.{bound_by, unwound, shutdown_unwinds, shutdown_twice}
use neokit.App.{
  Options, Parts, App, created, new, push_run_steps, close, run, bearer_guard,
  shutdown_step_timeout, cancel_step, release_step,
}

module _ {Context W E : Type 0} where
  -- The application's own pushes, one after the other.
  abbrev pub push_all : List (Step Context W E) → Stack Context W E → Stack Context W E
  push_all [] s = s
  push_all (st ∷ steps) s = push_all steps (push st.name (some st.fn) s)

  push_all_lem :
      (steps : List (Step Context W E)) (s : Stack Context W E)
      → s.done ≡ false
      → push_all steps s ≡ record { steps = s.steps ++ steps; done = false }
  unfolding push
  push_all_lem [] s h = ground (arith, append-nil s.steps)
  push_all_lem (st ∷ steps) s h = ground (
    arith,
    push_all_lem steps (push st.name (some st.fn) s),
    append_assoc s.steps (st ∷ []) steps,
  )

  unwound-append :
      (with_timeout : Context → Duration → Context) (ctx : Context) (each : Duration)
      (xs ys : List (Step Context W E)) (w : W)
      → unwound with_timeout ctx each (xs ++ ys) w
        ≡ unwound with_timeout ctx each xs (unwound with_timeout ctx each ys w)
  unwound-append with_timeout ctx each [] ys w = refl
  unwound-append with_timeout ctx each (x ∷ xs) ys w =
      ap (λ w'. (x.fn (bound_by with_timeout ctx each) w').0)
        (unwound-append with_timeout ctx each xs ys w)

module _ {Context W E : Type 0} (parts : Parts Context W E) where
  open parts use {cancel, release, drain, wait_go, trace_shutdown, metrics_shutdown}

  abbrev base_steps : List (Step Context W E)
  base_steps =
      record { name = "tracing"; fn = trace_shutdown }
      ∷ record { name = "metrics-export"; fn = metrics_shutdown }
      ∷ []

  abbrev run_steps : List (Step Context W E)
  run_steps =
      record { name = "background-work"; fn = wait_go }
      ∷ record { name = "background-context"; fn = cancel_step parts }
      ∷ record { name = "api"; fn = drain }
      ∷ record { name = "streams"; fn = release_step parts }
      ∷ []

  new_steps :
      (o : Options) (build : Text) (tracing metrics : Option E) (w : W) (a : App Context W E)
      → (new parts o build tracing metrics w).1 ≡ created a
      → a.shutdown ≡ record { steps = base_steps; done = false }
  unfolding new push
  new_steps o build tracing metrics w a h = ground arith

  run_stack :
      (a : App Context W E) (steps : List (Step Context W E))
      → a.shutdown ≡ record { steps = steps; done = false }
      → (push_run_steps parts a).shutdown ≡ record { steps = steps ++ run_steps; done = false }
  unfolding push_run_steps push
  run_stack a steps h = simp (h, append_assoc)

  close_world :
      (with_timeout : Context → Duration → Context) (ctx : Context) (o : Options) (build : Text)
      (tracing metrics : Option E) (users : List (Step Context W E)) (a : App Context W E)
      (w w' : W)
      → (new parts o build tracing metrics w').1 ≡ created a
      → let bound = with_timeout ctx shutdown_step_timeout in
        let act : StepFn Context W E → W → W = λ fn v. (fn bound v).0 in
        let joined = act wait_go (cancel (act drain (release w))) in
        let stopped = unwound with_timeout ctx shutdown_step_timeout users joined in
        let b : App Context W E = record a { shutdown = push_all users a.shutdown } in
        (close parts with_timeout ctx (push_run_steps parts b) w).1
        ≡ release (cancel (act trace_shutdown (act metrics_shutdown stopped)))
  unfolding close
  close_world with_timeout ctx o build tracing metrics users a w w' h =
      let b : App Context W E = record a { shutdown = push_all users a.shutdown } in
      let base = new_steps o build tracing metrics w' a h in
      let pushed : b.shutdown ≡ record { steps = base_steps ++ users; done = false } =
        rw base (push_all_lem users (record { steps = base_steps; done = false }) refl) in
      let stack = run_stack b (base_steps ++ users) pushed in
      rw
        (
          stack,
          shutdown_unwinds with_timeout ctx shutdown_step_timeout
              (record { steps = (base_steps ++ users) ++ run_steps; done = false }) w refl,
          unwound-append with_timeout ctx shutdown_step_timeout (base_steps ++ users) run_steps w,
        )
        (simp (unwound-append with_timeout ctx))

  -- The teardown of an application that New built, whatever the application pushed and however
  -- the listener ended: the streams are released, the API drains, the context is cancelled, the
  -- background work is joined, the application's steps run in reverse, the metrics are flushed and
  -- then the traces; each under the per-step bound, and whatever the steps before it returned.
  pub run_teardown :
      (with_timeout : Context → Duration → Context) (ctx : Context) (o : Options) (build : Text)
      (tracing metrics server : Option E) (users : List (Step Context W E)) (a : App Context W E)
      (w w' : W)
      → (new parts o build tracing metrics w').1 ≡ created a
      → let bound = with_timeout ctx shutdown_step_timeout in
        let act : StepFn Context W E → W → W = λ fn v. (fn bound v).0 in
        let joined = act wait_go (cancel (act drain (release w))) in
        let stopped = unwound with_timeout ctx shutdown_step_timeout users joined in
        (run parts with_timeout ctx server (record a { shutdown = push_all users a.shutdown }) w).1
        ≡ release (cancel (act trace_shutdown (act metrics_shutdown stopped)))
  unfolding run
  run_teardown with_timeout ctx o build tracing metrics (some e) users a w w' h =
      close_world with_timeout ctx o build tracing metrics users a w w' h
  run_teardown with_timeout ctx o build tracing metrics none users a w w' h =
      close_world with_timeout ctx o build tracing metrics users a w w' h

-- Close once more, as a deferred call does after Run: it runs no step, reports nothing, and
-- cancels the two contexts as the first call did.
pub close_twice :
    {Context W E : Type 0} (parts : Parts Context W E) (with_timeout : Context → Duration → Context)
    (ctx ctx' : Context) (a : App Context W E) (w w' : W)
    → let a' = (close parts with_timeout ctx a w).0 in
      close parts with_timeout ctx' a' w' ≡ (a', parts.release (parts.cancel w'), [])
unfolding close
close_twice parts with_timeout ctx ctx' a w w' =
    let again =
      (shutdown_twice with_timeout ctx ctx' shutdown_step_timeout shutdown_step_timeout a.shutdown w
        w' "" none).0 in
    rw again refl

-- The metrics endpoint answers a request exactly when no token is set, or the request carries it
-- as a bearer token.
pub bearer_guard_iff :
    (token header : Text)
    → (bearer_guard token header ≡ true) ↔ ((token ≡ []) ⊎ (header ≡ codes "Bearer " ++ token))
unfolding bearer_guard
bearer_guard_iff [] header = (λ h. inl refl, λ h. refl)
bearer_guard_iff (c ∷ token) header = (
  λ h. inr ((text_eq_iff header (codes "Bearer " ++ c ∷ token)).0 h),
  λ h. ground (arith, text_eq_iff header (codes "Bearer " ++ c ∷ token)),
)
