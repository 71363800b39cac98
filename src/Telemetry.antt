-- ===== src/Telemetry.antt =====
-- metrics/metrics.go and tracing/tracing.go: which exports Init installs, and the span of a request.
-- What the OpenTelemetry SDK and the environment answer are arguments; an error is a value of `E`.
pub mod Boot
use neokit.Base.{
  Bool, if◌then◌else◌, List, Option, some, ◌∷◌, [], false, true, ◌++◌, none, String, leb, ℕ,
  is_some,
}
use neokit.Text.{Text}
use neokit.Fiberx.Middleware.{Chained, returned, panicked}

-- The answers that metrics.Init meets: whether the endpoint is asked for, the error of the
-- Prometheus reader, the two endpoints of the environment, and the error of the OTLP exporter.
pub record MetricsAnswers (E : Type 0) : Type 0 where
  pub pull : Bool
  pub prometheus : Option E
  pub endpoint : Text
  pub metrics_endpoint : Text
  pub otlp : Option E

pub data Reader : Type 0 where
  prometheus_reader otlp_reader : Reader

pub data Warning (E : Type 0) : Type 0 where
  endpoint_disabled push_disabled tracing_disabled : E → Warning E

-- Pipeline: whether there is a scrape handler, the readers of the provider that Shutdown closes,
-- none where Shutdown does nothing, and the endpoint that is logged.
pub record Pipeline (E : Type 0) : Type 0 where
  pub handler : Bool
  pub readers : List Reader
  pub push : Text
  pub warnings : List (Warning E)
  pub error : Option E

abbrev pub first_set : Text → Text → Text
first_set [] t = t
first_set (c ∷ s) t = c ∷ s

-- The scrape endpoint's part of metrics.Init, and the push's.
unfoldable pub pull_part : {E : Type 0} → MetricsAnswers E → List Reader × Bool × List (Warning E)
pull_part a =
    if a.pull
    then elim a.prometheus [
      | some e ↦ ([], false, endpoint_disabled e ∷ [])
      | none ↦ (prometheus_reader ∷ [], true, [])
    ]
    else ([], false, [])

unfoldable pub push_part : {E : Type 0} → MetricsAnswers E → List Reader × Text × List (Warning E)
push_part a = elim (first_set a.endpoint a.metrics_endpoint) [
  | [] ↦ ([], [], [])
  | c ∷ s ↦ elim a.otlp [
    | some e ↦ ([], [], push_disabled e ∷ [])
    | none ↦ (otlp_reader ∷ [], c ∷ s, [])
  ]
]

-- metrics.Init, without the resource's attributes and the runtime instruments.
unfoldable pub init_metrics : {E : Type 0} → MetricsAnswers E → Pipeline E
unfolding pull_part push_part
init_metrics a =
    let (pulled, scrape, w) = pull_part a in
    let (pushed, push, v) = push_part a in
    record {
      handler = scrape;
      readers = pulled ++ pushed;
      push = push;
      warnings = w ++ v;
      error = none;
    }

-- What tracing.Init meets, and what it leaves: whether the provider is installed that Shutdown
-- closes. The propagator is set in any case.
pub record TracingAnswers (E : Type 0) : Type 0 where
  pub endpoint : Text
  pub traces_endpoint : Text
  pub otlp : Option E

pub record Tracing (E : Type 0) : Type 0 where
  pub installed : Bool
  pub warnings : List (Warning E)
  pub error : Option E

-- tracing.Init
unfoldable pub init_tracing : {E : Type 0} → TracingAnswers E → Tracing E
init_tracing a = elim (first_set a.endpoint a.traces_endpoint) [
  | [] ↦ record { installed = false; warnings = []; error = none }
  | c ∷ s ↦ elim a.otlp [
    | some e ↦ record { installed = false; warnings = tracing_disabled e ∷ []; error = none }
    | none ↦ record { installed = true; warnings = []; error = none }
  ]
]

-- The status of a span, and the span that tracing.Middleware ends: a status of `none` is no
-- http.response.status_code.
pub data SpanStatus : Type 0 where
  unset panicking failing : SpanStatus

pub record Span : Type 0 where
  pub span_method : String
  pub span_route : String
  pub response_status : Option ℕ
  pub span_status : SpanStatus
  pub recorded : Bool

-- tracing.Middleware: `route` is what c.Route() reports before the chain runs, and the rest is what
-- the chain does.
unfoldable pub trace_request : String → String → Chained → Span
trace_request method route panicked = record {
  span_method = method;
  span_route = route;
  response_status = none;
  span_status = panicking;
  recorded = true;
}
trace_request method route (returned err status path lasted) = record {
  span_method = method;
  span_route = route;
  response_status = some status;
  span_status = (if leb 500 status then failing else unset);
  recorded = is_some err;
}
