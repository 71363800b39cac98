-- ===== src/App.antt =====
-- app/app.go and app/run.go: the boot sequence as far as it decides names, mount points and the
-- teardown stack, and the teardown itself. The OpenTelemetry exports, the HTTP server, the
-- process-wide group of background goroutines and the two contexts that the application cancels
-- are parameters: what each does when a teardown step calls it. Fiber's routes and middleware are
-- calls of that library.
pub mod Order
pub mod Layers
pub mod Streams
pub mod Address
use neokit.Base.{ℕ, Bool, List, Option, pos, some, ◌*◌, String, true, none, ◌∷◌, ◌++◌, []}
use neokit.Clock.{Duration, second}
use neokit.Text.{Text, trim_space, codes, text_eq}
use neokit.Lifecycle.{Stack, StepFn, Result, StepError, Outcome, fine, push, shutdown, empty}

abbrev pub shutdown_step_timeout : Duration
shutdown_step_timeout = pos (15 * second)

abbrev pub default_api_base : Text
default_api_base = codes "/api/v1"

abbrev pub default_auth_base : Text
default_auth_base = codes "/api/auth"

-- orDefault treats whitespace as unset.
unfoldable pub or_default : Text → Text → Text
or_default v default = let t = trim_space v in elim t [ [] ↦ default | c ∷ rest ↦ c ∷ rest ]

pub record Options : Type 0 where
  pub name : Text
  pub version : Text
  pub api_base : Text
  pub auth_base : Text
  pub metrics_token : Text

-- The parts of the process that a teardown acts on.
pub record Parts (Context W E : Type 0) : Type 0 where
  pub cancel : W → W  -- a.cancel: the application's context
  pub release : W → W  -- shuttingDown.release: the streams' context
  pub drain : StepFn Context W E  -- a.HTTP.ShutdownWithTimeout
  pub wait_go : StepFn Context W E  -- safe.WaitGo
  pub trace_shutdown : StepFn Context W E
  pub metrics_shutdown : StepFn Context W E

pub record App (Context W E : Type 0) : Type 0 where
  pub name : Text
  pub version : Text
  pub api_base : Text
  pub auth_base : Text
  pub shutdown : Stack Context W E

pub data NewError (E : Type 0) : Type 0 where
  name_required : NewError E
  init_failed : E → NewError E

pub data Created (Context W E : Type 0) : Type 0 where
  created : App Context W E → Created Context W E
  refused : NewError E → Created Context W E

-- What Run returns: a fatal error of the listener comes before those of the teardown.
pub data RunResult (E : Type 0) : Type 0 where
  fatal : E → RunResult E
  closed : List (String × StepError E) → RunResult E

module _ {Context W E : Type 0} (parts : Parts Context W E) where
  open parts use {cancel, release, drain, wait_go, trace_shutdown, metrics_shutdown}

  -- New. `build` is the version that buildinfo reads from the binary; `tracing` and `metrics` are
  -- the errors of the two exports' initialisation. A failed one cancels the context.
  unfoldable pub new : Options → Text → Option E → Option E → W → W × Created Context W E
  unfolding or_default
  new o build tracing metrics w =
      let version : Text = elim (trim_space o.version) [ [] ↦ build | c ∷ rest ↦ o.version ] in
      let traced : Stack Context W E = push "tracing" (some trace_shutdown) empty in
      let exported : Stack Context W E = push "metrics-export" (some metrics_shutdown) traced in
      let app : App Context W E = record {
        name = o.name;
        version = version;
        api_base = or_default o.api_base default_api_base;
        auth_base = or_default o.auth_base default_auth_base;
        shutdown = exported;
      } in
      elim (trim_space o.name) [
        | [] ↦ (w, refused name_required)
        | c ∷ rest ↦ elim tracing [
          | some e ↦ (cancel w, refused (init_failed e))
          | none ↦ elim metrics [
            | some e ↦ (cancel w, refused (init_failed e))
            | none ↦ (w, created app)
          ]
        ]
      ]

  abbrev pub cancel_step : StepFn Context W E
  cancel_step ctx w = (cancel w, fine)

  abbrev pub release_step : StepFn Context W E
  release_step ctx w = (release w, fine)

  -- pushRunSteps
  unfoldable pub push_run_steps : App Context W E → App Context W E
  push_run_steps a =
      let joined = push "background-work" (some wait_go) a.shutdown in
      let cancelled = push "background-context" (some cancel_step) joined in
      let drained = push "api" (some drain) cancelled in
      record a { shutdown = push "streams" (some release_step) drained }

  -- Close, under the context that carries its grace timeout.
  unfoldable pub close :
      (Context → Duration → Context)
      → Context
      → App Context W E
      → W
      → App Context W E × W × List (String × StepError E)
  close with_timeout ctx a w =
      let r = shutdown with_timeout ctx shutdown_step_timeout a.shutdown w in
      (record a { shutdown = r.stack }, release (cancel r.world), r.errors)

  -- Run, from the listener's start to its return: `server` is the listener's error, or none when
  -- a signal came first.
  unfoldable pub run :
      (Context → Duration → Context)
      → Context
      → Option E
      → App Context W E
      → W
      → App Context W E × W × RunResult E
  unfolding close
  run with_timeout ctx server a w =
      let (a', w', errs) = close with_timeout ctx (push_run_steps a) w in
      elim server [ some e ↦ (a', w', fatal e) | none ↦ (a', w', closed errs) ]

-- bearerGuard: whether a request with this Authorization header passes.
unfoldable pub bearer_guard : Text → Text → Bool
unfolding text_eq
bearer_guard [] header = true
bearer_guard (c ∷ token) header = text_eq header (codes "Bearer " ++ c ∷ token)
