-- ===== src/Fiberx/Middleware.antt =====
-- fiberx/middleware.go: MetricsAndLogger. What the instruments and the logger receive is kept in
-- `Meter`, newest first. A request begins and ends by two calls, since others run in between; its
-- handler returns, or panics through the middleware. A duration is the nanoseconds that it lasts.
pub mod Gauge
use neokit.Base.{
  List, Option, String, ℕ, ◌∷◌, Bool, if◌then◌else◌, some, leb, none, string_eq, false, ◌==◌, ◌||◌,
  true,
}
use neokit.Clock.{Duration}
use neokit.Fiberx.Errors.{Chain, Mapper, status_for_error}

pub data RequestMethodAttr : Type 0 where
  get head post put patch delete connect options trace other : RequestMethodAttr

-- requestMethod
unfoldable pub request_method : String → RequestMethodAttr
request_method s =
    if string_eq.beq s "GET"
    then get
    else if string_eq.beq s "HEAD"
    then head
    else if string_eq.beq s "POST"
    then post
    else if string_eq.beq s "PUT"
    then put
    else if string_eq.beq s "PATCH"
    then patch
    else if string_eq.beq s "DELETE"
    then delete
    else if string_eq.beq s "CONNECT"
    then connect
    else if string_eq.beq s "OPTIONS"
    then options
    else if string_eq.beq s "TRACE"
    then trace
    else other

pub record Request : Type 0 where
  pub method : String
  pub scheme : String

-- The attributes of a measurement of the requests in flight.
pub record Attrs : Type 0 where
  pub attr : RequestMethodAttr
  pub attr_scheme : String

unfoldable pub attrs_of : Request → Attrs
attrs_of r = record { attr = request_method r.method; attr_scheme = r.scheme }

pub record Sample : Type 0 where
  pub attrs : Attrs
  pub route : String
  pub status : ℕ
  pub lasted : Duration

pub data Level : Type 0 where
  info warn error : Level

pub record Line : Type 0 where
  pub level : Level
  pub line_method : String
  pub path : String
  pub line_status : ℕ

pub record Meter : Type 0 where
  pub ups : List Attrs
  pub downs : List Attrs
  pub samples : List Sample
  pub lines : List Line

-- What the rest of the chain did: the error, the status that the response carries, the route's
-- template and the time that it took; or a panic.
pub data Chained : Type 0 where
  returned : Option Chain → ℕ → String → Duration → Chained
  panicked : Chained

-- Errors.skipLog; the caller's QuietPath may be nil.
unfoldable pub skip_log : Option (String → Bool) → String → ℕ → Bool
skip_log quiet path status =
    if leb 400 status
    then false
    else if status == 304 || status == 101
    then true
    else elim quiet [ none ↦ false | some q ↦ q path ]

unfoldable pub level_of : ℕ → Level
level_of status = if leb 500 status then error else if leb 400 status then warn else info

-- The status of a request: the response's, or the one that its error will be rendered with.
unfoldable pub status_of : Mapper → Option Chain → ℕ → ℕ
status_of mapper none status = status
status_of mapper (some e) status = status_for_error mapper e

-- MetricsAndLogger up to c.Next, and from there on with the deferred call.
unfoldable pub begin_request : Request → Meter → Meter
begin_request r m = record m { ups = attrs_of r ∷ m.ups }

unfoldable pub record_request : Mapper → Option (String → Bool) → Request → Chained → Meter → Meter
unfolding status_of skip_log level_of
record_request mapper quiet r panicked m = m
record_request mapper quiet r (returned err response path lasted) m =
    let status = status_of mapper err response in
    let sampled : Meter = record m {
      samples =
          record { attrs = attrs_of r; route = path; status = status; lasted = lasted } ∷ m.samples;
    } in
    if skip_log quiet path status then sampled else record sampled {
      lines =
          record {
            level = level_of status;
            line_method = r.method;
            path = path;
            line_status = status;
          }
          ∷ m.lines;
    }

unfoldable pub end_request : Mapper → Option (String → Bool) → Request → Chained → Meter → Meter
unfolding record_request
end_request mapper quiet r out m =
    let m' = record_request mapper quiet r out m in record m' { downs = attrs_of r ∷ m'.downs }
