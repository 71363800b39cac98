-- ===== src/Oidcauth/Errors.antt =====
-- The errors of oidcauth (oidcauth/errors.go) and how a failure of discovery or of a code exchange
-- becomes one (oidcauth/provider.go). A failure is what errors.Is and errors.AsType find in it; the
-- messages are not modelled, but for what the token endpoint answered.
use neokit.Base.{ℕ, Bool, false, not, ◌||◌, List, [], ◌∷◌, Option, none, some, ◌==◌, if◌then◌else◌}
use neokit.Text.{Text, text_eq, codes}
use neokit.Oidcauth.{blank}

-- errors.go
pub data Sentinel : Type 0 where
  unresolved untrusted discovery_failed client_rejected code_rejected : Sentinel
  token_endpoint_unreachable token_invalid not_configured : Sentinel

-- oauth2.RetrieveError: the error code, and the status when there is a response.
pub record RetrieveError : Type 0 where
  pub error_code : Text
  pub status : Option ℕ

-- What errors.Is and errors.AsType find in a failure.
pub record Failure : Type 0 where
  pub context : Bool
  pub dns : Bool
  pub certificate : Bool
  pub url : Bool
  pub retrieve : Option RetrieveError

-- What an error carries beside its sentinel: nothing, the failure, its part for the name or the
-- certificate, the failure with its URL redacted, or what the token endpoint answered.
pub data Detail : Type 0 where
  bare whole dns_part certificate_part redacted : Detail
  answered : Text → Detail

abbrev pub OidcError : Type 0
OidcError = Sentinel × Detail

-- discoveryErr
unfoldable pub discovery_err : Failure → OidcError
discovery_err e =
    if e.context
    then (discovery_failed, whole)
    else if e.dns
    then (unresolved, dns_part)
    else if e.certificate
    then (untrusted, certificate_part)
    else if e.url
    then (discovery_failed, redacted)
    else (discovery_failed, bare)

-- tokenEndpointErrors
abbrev pub token_endpoint_errors : List Text
token_endpoint_errors =
    codes "invalid_request"
    ∷ codes "invalid_client"
    ∷ codes "invalid_grant"
    ∷ codes "unauthorized_client"
    ∷ codes "unsupported_grant_type"
    ∷ codes "invalid_scope"
    ∷ []

unfoldable pub listed : Text → List Text → Bool
listed s [] = false
listed s (t ∷ ts) = text_eq t s || listed s ts

abbrev pub is_unauthorized : Option ℕ → Bool
is_unauthorized none = false
is_unauthorized (some status) = status == 401

-- clientWasRejected
unfoldable pub client_was_rejected : RetrieveError → Bool
client_was_rejected re =
    if not (blank re.error_code)
    then text_eq re.error_code (codes "invalid_client")
    else is_unauthorized re.status

abbrev pub unrecognised : Text
unrecognised = codes "an unrecognised error"

abbrev pub answer : RetrieveError → Text
answer re = if listed re.error_code token_endpoint_errors then re.error_code else unrecognised

-- exchangeErr
unfoldable pub exchange_err : Failure → OidcError
exchange_err e = elim e.retrieve [
  | none ↦
      if e.url then (token_endpoint_unreachable, redacted) else (token_endpoint_unreachable, bare)
  | some re ↦
      if client_was_rejected re
      then (client_rejected, answered (answer re))
      else (code_rejected, answered (answer re))
]
