-- ===== src/Examples/Teardown.antt =====
-- A stack of two steps over a log: each step writes its name, and the second fails.
use neokit.Base.{String, List, ◌≡◌, ◌++◌, ◌∷◌, [], pos, false, refl, ◌*◌, none, true}
use neokit.Clock.{Duration, second}
use neokit.Text.{codes, trim}
use neokit.Lifecycle.{StepFn, Step, Stack, fine, failed, push, shutdown}
use neokit.Lifecycle.Teardown.{unwound, reports, shutdown_unwinds}
use neokit.App.{Options, Parts, App, created, new, run, shutdown_step_timeout}
use neokit.App.Order.{push_all, run_teardown}

-- A context is the time that it leaves.
abbrev bounded : Duration → Duration → Duration
bounded ctx d = d

abbrev Log : Type 0
Log = List String

abbrev says : String → StepFn Duration Log String
says name ctx log = (log ++ name ∷ [], fine)

abbrev breaks : StepFn Duration Log String
breaks ctx log = (log ++ "broken" ∷ [], failed "oops")

abbrev stack : Stack Duration Log String
stack = record {
  steps =
      record { name = "database"; fn = says "database" }
      ∷ record { name = "cache"; fn = breaks }
      ∷ [];
  done = false;
}

abbrev grace : Duration
grace = pos (10 * second)

shutdown_unwinds_example : shutdown bounded grace grace stack [] ≡ record {
  stack = record { steps = []; done = true };
  world = unwound bounded grace grace stack.steps [];
  errors = reports bounded grace grace stack.steps [];
}
shutdown_unwinds_example = shutdown_unwinds bounded grace grace stack [] refl

abbrev parts : Parts Duration Log String
parts = record {
  cancel = λ log. log ++ "cancel" ∷ [];
  release = λ log. log ++ "release" ∷ [];
  drain = says "drain";
  wait_go = says "join";
  trace_shutdown = says "traces";
  metrics_shutdown = says "metrics";
}

abbrev options : Options
options = record {
  name = codes "svc";
  version = [];
  api_base = [];
  auth_base = [];
  metrics_token = [];
}

abbrev app : App Duration Log String
app = record {
  name = codes "svc";
  version = codes "v1";
  api_base = codes "/api/v1";
  auth_base = codes "/api/auth";
  shutdown = record {
    steps =
        record { name = "tracing"; fn = says "traces" }
        ∷ record { name = "metrics-export"; fn = says "metrics" }
        ∷ [];
    done = false;
  };
}

app_created : (new parts options (codes "v1") none none []).1 ≡ created app
unfolding new push trim
app_created = refl

abbrev users : List (Step Duration Log String)
users = stack.steps

run_teardown_example :
    let act : StepFn Duration Log String → Log → Log = λ fn v. (fn shutdown_step_timeout v).0 in
    let joined = act (says "join") (parts.cancel (act (says "drain") (parts.release []))) in
    let stopped = unwound bounded grace shutdown_step_timeout users joined in
    (run parts bounded grace none (record app { shutdown = push_all users app.shutdown }) []).1
    ≡ parts.release (parts.cancel (act (says "traces") (act (says "metrics") stopped)))
run_teardown_example =
    run_teardown parts bounded grace options (codes "v1") none none none users app [] [] app_created
