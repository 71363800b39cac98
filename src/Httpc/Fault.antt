-- ===== src/Httpc/Fault.antt =====
-- httpc/fault.go and httpc/errors.go. An error is the chain of errors that errors.Is and
-- errors.AsType walk, outermost first: of each link only what the code asks for is kept.
pub mod Classes
use neokit.Base.{
  ℕ, Bool, List, Option, if◌then◌else◌, ◌==◌, none, some, true, any, false, ◌||◌, ◌∷◌, [], leb,
}

pub data Link : Type 0 where
  not_found already_exists canceled deadline_exceeded net_error other : Link
  api_error : ℕ → Link

abbrev pub Error : Type 0
Error = List Link

pub data Fault : Type 0 where
  fault_none auth fault_not_found conflict rate_limited unavailable unsupported unknown : Fault

pub data Level : Type 0 where
  debug warn : Level

-- errors.Is against a sentinel.
abbrev pub is_not_found : Link → Bool
is_not_found not_found = true
is_not_found _ = false

abbrev pub is_already_exists : Link → Bool
is_already_exists already_exists = true
is_already_exists _ = false

abbrev pub is_context : Link → Bool
is_context canceled = true
is_context deadline_exceeded = true
is_context _ = false

-- errors.AsType[net.Error]; the context's deadline error is one too.
abbrev pub is_net_error : Link → Bool
is_net_error net_error = true
is_net_error deadline_exceeded = true
is_net_error _ = false

-- errors.AsType[*APIError]: the first one's status.
abbrev pub api_status : Error → Option ℕ
api_status [] = none
api_status (api_error status ∷ e) = some status
api_status (link ∷ e) = api_status e

-- Retryable
unfoldable pub retryable : Fault → Bool
retryable rate_limited = true
retryable unavailable = true
retryable _ = false

-- AdminActionable
unfoldable pub admin_actionable : Fault → Bool
admin_actionable auth = true
admin_actionable conflict = true
admin_actionable _ = false

-- LogLevel
unfoldable pub log_level : Fault → Level
unfolding admin_actionable
log_level f = if admin_actionable f then warn else debug

unfoldable pub fault_for_status : ℕ → Fault
fault_for_status status =
    if status == 401 || status == 403
    then auth
    else if status == 404
    then fault_not_found
    else if status == 409
    then conflict
    else if status == 429
    then rate_limited
    else if status == 405 || status == 501
    then unsupported
    else if leb 500 status
    then unavailable
    else unknown

-- Classify; a nil error is none.
unfoldable pub classify : Option Error → Fault
unfolding fault_for_status
classify none = fault_none
classify (some e) =
    if any is_not_found e
    then fault_not_found
    else if any is_already_exists e
    then conflict
    else elim (api_status e) [
      | some status ↦ fault_for_status status
      | none ↦
          if any is_context e
          then unavailable
          else if any is_net_error e
          then unavailable
          else unknown
    ]

-- IsConflict
unfoldable pub is_conflict : Error → Bool
is_conflict e = elim (api_status e) [ none ↦ false | some status ↦ status == 409 ]
