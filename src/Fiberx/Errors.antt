-- ===== src/Fiberx/Errors.antt =====
-- fiberx/errors.go: the status and the body that an error becomes. An error is what errors.AsType and
-- errors.Is find in its chain. A status of 0 leaves the server's default, which is 200. The log lines
-- are modelled by their level alone.
pub mod Sending
use neokit.Base.{
  Option, String, if◌then◌else◌, ℕ, ◌==◌, Bool, List, [], none, some, false, leb, string_eq,
}

-- FieldError
pub record FieldError : Type 0 where
  pub field : String
  pub slug : String
  pub text : String

pub record ApiError : Type 0 where
  pub status : ℕ
  pub message : String
  pub code : String
  pub fields : List FieldError

-- fiber.Error
pub record FiberError : Type 0 where
  pub fiber_status : ℕ
  pub fiber_message : String

-- An error: its APIError, its fiber.Error, and the sentinels of errs in its chain.
pub record Chain : Type 0 where
  pub api : Option ApiError
  pub fiber : Option FiberError
  pub not_found : Bool
  pub invalid_input : Bool
  pub conflict : Bool

-- CodeForStatus
unfoldable pub code_for_status : ℕ → String
code_for_status status =
    if status == 400
    then "bad_request"
    else if status == 401
    then "unauthorized"
    else if status == 403
    then "forbidden"
    else if status == 404
    then "not_found"
    else if status == 409
    then "conflict"
    else if status == 412
    then "precondition_failed"
    else if status == 415
    then "unsupported_media_type"
    else if status == 422
    then "unprocessable_entity"
    else if status == 429
    then "rate_limited"
    else if status == 501
    then "not_implemented"
    else if status == 502
    then "bad_gateway"
    else if status == 503
    then "unavailable"
    else if leb 500 status
    then "internal"
    else "error"

-- normalized
unfoldable pub normalized : ApiError → ApiError
normalized e =
    let status = if e.status == 0 then 500 else e.status in
    record e {
      status = status;
      code = if string_eq.beq e.code "" then code_for_status status else e.code;
    }

-- The envelope as it is sent.
pub record Envelope : Type 0 where
  pub sent_status : ℕ
  pub error : String
  pub error_code : String
  pub error_fields : List FieldError

abbrev pub applied : ℕ → ℕ
applied status = if status == 0 then 200 else status

abbrev pub api_envelope : ApiError → Envelope
api_envelope e = record {
  sent_status = applied e.status;
  error = e.message;
  error_code = e.code;
  error_fields = e.fields;
}

abbrev pub plain_envelope : ℕ × String × String → Envelope
plain_envelope (status, message, code) = record {
  sent_status = applied status;
  error = message;
  error_code = code;
  error_fields = [];
}

-- A DomainMapper, or none.
abbrev pub Mapper : Type 0
Mapper = Option (Chain → Option (ℕ × String × String))

-- stdMapper
unfoldable pub std_mapper : Chain → Option (ℕ × String × String)
std_mapper e =
    if e.not_found
    then some (404, "not found", "not_found")
    else if e.invalid_input
    then some (400, "invalid input", "invalid_input")
    else if e.conflict
    then some (409, "conflict", "conflict")
    else none

abbrev pub mapped : Mapper → Chain → Option (ℕ × String × String)
mapped none e = none
mapped (some mapper) e = mapper e

abbrev pub or_else : Option (ℕ × String × String) → ℕ × String × String → ℕ × String × String
or_else none y = y
or_else (some x) y = x

-- Errors.mapError
unfoldable pub map_error : Mapper → Chain → ℕ × String × String
unfolding std_mapper
map_error mapper e = elim e.fiber [
  | some fe ↦ (fe.fiber_status, fe.fiber_message, code_for_status fe.fiber_status)
  | none ↦
      or_else (mapped mapper e) (or_else (std_mapper e) (500, "internal server error", "internal"))
]

-- Errors.WriteError, without its log line.
unfoldable pub write_error : Mapper → Chain → Envelope
write_error mapper e = elim e.api [
  | some ae ↦ api_envelope ae
  | none ↦ plain_envelope (map_error mapper e)
]

-- Whether the log line of logCause, at that status, is an error rather than a warning.
abbrev pub logged_as_error : ℕ → Bool
logged_as_error status = leb 500 status

-- Errors.Render
unfoldable pub render : Mapper → Chain → Envelope
render mapper e = elim e.api [
  | some ae ↦ api_envelope (normalized ae)
  | none ↦ elim e.fiber [
    | some fe ↦ plain_envelope (fe.fiber_status, fe.fiber_message, code_for_status fe.fiber_status)
    | none ↦ write_error mapper e
  ]
]

-- Errors.StatusForError
unfoldable pub status_for_error : Mapper → Chain → ℕ
status_for_error mapper e = elim e.api [
  | some ae ↦ (normalized ae).status
  | none ↦ elim e.fiber [ some fe ↦ fe.fiber_status | none ↦ (map_error mapper e).0 ]
]

-- Errors.Fail, without its log line.
unfoldable pub fail : ℕ → String → Chain
fail status public = record {
  api = none;
  fiber = some (record { fiber_status = status; fiber_message = public });
  not_found = false;
  invalid_input = false;
  conflict = false;
}
