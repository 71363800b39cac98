-- ===== src/Telemetry/Boot.antt =====
-- Telemetry and the boot of the application.
use neokit.Base.{◌≡◌, [], none, ◌⊎◌, ◌≢◌, Option, refl, ◌∷◌, inl, inr, some, ℕ}
use neokit.Lifecycle.{names, push, empty}
use neokit.Text.{Text, trim_space}
use neokit.App.{
  Options, Parts, App, Created, created, refused, name_required, new, or_default, default_api_base,
  default_auth_base,
}
use neokit.Telemetry.{MetricsAnswers, init_metrics, TracingAnswers, init_tracing, first_set}

init_metrics-error : {E : Type 0} (a : MetricsAnswers E) → (init_metrics a).error ≡ none
unfolding init_metrics
init_metrics-error a = refl

init_tracing-error : {E : Type 0} (a : TracingAnswers E) → (init_tracing a).error ≡ none
unfolding init_tracing
init_tracing-error {E = E} a = go (first_set a.endpoint a.traces_endpoint) a.otlp refl refl
  where
    go :
        (t : Text) (o : Option E)
        → first_set a.endpoint a.traces_endpoint ≡ t
        → a.otlp ≡ o
        → (init_tracing a).error ≡ none
    go [] o h k = rw (init_tracing, h) refl
    go (c ∷ s) none h k = rw (init_tracing, h, k) refl
    go (c ∷ s) (some e) h k = rw (init_tracing, h, k) refl

module _ {Context W E : Type 0} (parts : Parts Context W E) where
  -- Whatever the exporters answer, New is refused for a blank name alone: a broken collector leaves
  -- the application without that export, and it boots with the teardown of both.
  pub new-telemetry :
      (o : Options) (build : Text) (m : MetricsAnswers E) (t : TracingAnswers E) (w : W)
      → let out = new parts o build (init_tracing t).error (init_metrics m).error w in
        (trim_space o.name ≡ []) × (out ≡ (w, refused name_required))
        ⊎ ((app : App Context W E) × (trim_space o.name ≢ [])
            × (out ≡ (w, created app))
            × (names app.shutdown ≡ "tracing" ∷ "metrics-export" ∷ []))
  unfolding new names push
  new-telemetry o build m t w =
      rw (init_metrics-error m, init_tracing-error t) (go (trim_space o.name) refl)
    where
      Booted : W × Created Context W E → Type 0
      Booted out =
          (trim_space o.name ≡ []) × (out ≡ (w, refused name_required))
          ⊎ ((app : App Context W E) × (trim_space o.name ≢ [])
              × (out ≡ (w, created app))
              × (names app.shutdown ≡ "tracing" ∷ "metrics-export" ∷ []))

      cons_nil : (c : ℕ) (s : Text) → trim_space o.name ≡ c ∷ s → trim_space o.name ≢ []
      cons_nil c s h k = cc

      app : App Context W E
      app = record {
        name = o.name;
        version = (elim (trim_space o.version) [ [] ↦ build | c ∷ rest ↦ o.version ]);
        api_base = or_default o.api_base default_api_base;
        auth_base = or_default o.auth_base default_auth_base;
        shutdown =
            push "metrics-export" (some parts.metrics_shutdown)
              (push "tracing" (some parts.trace_shutdown) empty);
      }

      go : (t : Text) → trim_space o.name ≡ t → Booted (new parts o build none none w)
      go [] h = inl (h, rw (new, h) refl)
      go (c ∷ s) h = inr (app, cons_nil c s h, rw (new, h) refl, refl)
