-- ===== src/Fiberx/Requests.antt =====
-- fiberx/ratelimit.go, params.go and validation.go: the key of a rate limit, a route parameter, and
-- the error of a body that does not bind or validate. Fiber's limiter, url.PathUnescape, the binding
-- and the validator's rules are arguments: what they answer.
pub mod Validation
use neokit.Base.{
  Bool, List, Option, String, if◌then◌else◌, ℕ, [], map, none, not, string_eq, ◌∷◌, ◌==◌, some,
}
use neokit.Text.{Text, trim, is_space, text_eq, codes}
use neokit.Fiberx.Errors.{ApiError, FieldError, Envelope}

-- strings.Cut by one character.
unfoldable pub before_cut : ℕ → Text → Text
before_cut sep [] = []
before_cut sep (c ∷ s) = let rest = before_cut sep s in if c == sep then [] else c ∷ rest

-- clientIP, of the header X-Forwarded-For, empty where there is none, and of the peer's address.
unfoldable pub client_ip : Text → Text → Text
unfolding before_cut
client_ip [] ip = ip
client_ip (c ∷ xff) ip = trim is_space (before_cut 44 (c ∷ xff))

-- The keys of RateLimiter and RateLimiterByPeer.
unfoldable pub limiter_key : Bool → Text → Text → Text
unfolding client_ip
limiter_key by_peer xff ip = if by_peer then ip else client_ip xff ip

-- limitReached, and its header Retry-After.
unfoldable pub limit_reached : String × Envelope
limit_reached = (
  "60",
  record {
    sent_status = 429;
    error = "rate limit exceeded, please retry shortly";
    error_code = "rate_limited";
    error_fields = [];
  },
)

-- PathParam, where `unescape` answers none for a malformed escape.
unfoldable pub path_param : (Text → Option Text) → Text → Text
path_param unescape raw = elim (unescape raw) [ none ↦ raw | some decoded ↦ decoded ]

abbrev pub append : String → String → String
append String.[] t = t
append (String.◌∷◌ c s) t = String.◌∷◌ c (append s t)

-- strings.Join
abbrev pub joined : String → List String → String
joined sep [] = ""
joined sep (s ∷ []) = s
joined sep (s ∷ t ∷ ss) = append s (append sep (joined sep (t ∷ ss)))

-- humanizeTag
unfoldable pub humanize_tag : String → String
humanize_tag tag =
    if string_eq.beq tag "required"
    then "required"
    else if string_eq.beq tag "email"
    then "must be a valid email address"
    else if string_eq.beq tag "min"
    then "value is too short"
    else if string_eq.beq tag "max"
    then "value is too long"
    else if string_eq.beq tag "oneof"
    then "must be one of the allowed values"
    else "invalid value"

-- What v.Struct answers: the fields that fail, each with its tag, or another error's text.
pub data Validated : Type 0 where
  passed : Validated
  failing : List (String × String) → Validated
  other_error : String → Validated

abbrev pub field_error : String × String → FieldError
field_error (name, tag) = record { field = name; slug = tag; text = humanize_tag tag }

abbrev pub sentence : String × String → String
sentence (name, tag) = append name (append ": " (humanize_tag tag))

abbrev pub refused : String → String → List FieldError → ApiError
refused code message fields = record {
  status = 400;
  message = message;
  code = code;
  fields = fields;
}

-- validationError
unfoldable pub validation_error : List (String × String) → ApiError
validation_error errs =
    refused "validation_failed" (joined ", " (map sentence errs)) (map field_error errs)

-- BindAndValidate
unfoldable pub bind_and_validate : Bool → Validated → Option ApiError
unfolding validation_error
bind_and_validate binds validated =
    if not binds then some (refused "invalid_body" "invalid request body" []) else elim validated [
      | passed ↦ none
      | failing errs ↦ some (validation_error errs)
      | other_error text ↦ some (refused "validation_failed" text [])
    ]

-- The name of a field in a validation error, of its json tag: NewValidator.
unfoldable pub tag_name : Text → Text
unfolding before_cut
tag_name json = let name = before_cut 44 json in if text_eq name (codes "-") then [] else name
