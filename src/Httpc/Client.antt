-- ===== src/Httpc/Client.antt =====
-- httpc/client.go: the caching token source, DoWithTokenRetry, DoJSON and the bounded reads. A login
-- and a request act on a world `W`; times are what time.Now answers. Token serialises its callers
-- by a mutex, so a call is one function. Headers other than the bearer token, the debug ring and
-- the JSON text are not modelled.
pub mod Tokens
pub mod Calls
pub mod Bounded
use neokit.Base.{
  negsuc, ℕ, suc, ◌+◌, ◌*◌, ℤ, pos, leb_ℤ, ltb_ℤ, ltb, leb, ◌-ℤ◌, Bool, true, false, not, ◌==◌,
  ◌&&◌, ◌||◌, String, string_eq, List, [], ◌∷◌, Option, none, some, ◌⊎◌, inl, inr, if◌then◌else◌,
  length, take,
}
use neokit.Strconv.{wrap64}
use neokit.Clock.{Instant, Duration, second, zero_time, is_zero, before, add}

abbrev pub token_refresh_margin : Duration
token_refresh_margin = pos (60 * second)

-- cachingTokenSource; an empty token is none cached.
pub record Source : Type 0 where
  pub margin : Duration
  pub token : String
  pub expires_at : Instant

-- NewCachingTokenSource
unfoldable pub new_source : Source
new_source = record { margin = token_refresh_margin; token = ""; expires_at = zero_time }

abbrev pub empty : String → Bool
empty s = string_eq.beq s ""

unfoldable pub expired : Instant → Source → Bool
expired now s = not (is_zero s.expires_at) && not (before now s.expires_at)

unfoldable pub set_expiry : Instant → Duration → Source → Source
set_expiry now ttl s =
    if leb_ℤ ttl (pos 0)
    then record s { expires_at = zero_time }
    else if ltb_ℤ s.margin ttl
    then record s { expires_at = add now (ttl -ℤ s.margin) }
    else record s { expires_at = add now ttl }

-- When one call of Token looks at the clock: before the login and after it.
pub record Times : Type 0 where
  pub asked : Instant
  pub logged_in : Instant

abbrev pub is_unauthorized : ℕ → Bool
is_unauthorized status = status == 401

-- What a request gives: no answer, or a status and whether its body decodes.
pub data Sent : Type 0 where
  unreachable : Sent
  answered : ℕ → Bool → Sent

pub data CallError (E : Type 0) : Type 0 where
  build_failed request_failed decode_failed : CallError E
  auth_failed : E → CallError E
  api_error : ℕ → CallError E

module _ {W E : Type 0} (login : W → W × (E ⊎ (String × Duration))) where
  -- cachingTokenSource.Token
  unfoldable pub token_of : Times → String → Source → W → Source × W × (E ⊎ String)
  unfolding expired set_expiry
  token_of t stale s w =
      let forced = not (empty stale) in
      let (w', out) = login w in
      if not forced && not (empty s.token) && not (expired t.asked s)
      then (s, w, inr s.token)
      else if forced && not (empty s.token) && not (string_eq.beq s.token stale)
      then (s, w, inr s.token)
      else elim out [
        | inl e ↦ (s, w', inl e)
        | inr (token, ttl) ↦
            (set_expiry t.logged_in ttl (record s { token = token }), w', inr token)
      ]

  -- DoWithTokenRetry; `none` is a transport error of the request.
  unfoldable pub do_with_token_retry :
      {B : Type 0}
      → Times
      → Times
      → (String → W → W × Option (ℕ × B))
      → Source
      → W
      → Source × W × (E ⊎ Option (ℕ × B))
  do_with_token_retry t u do_request s w =
      let (s', w', got) = token_of t "" s w in
      elim got [
        | inl e ↦ (s', w', inl e)
        | inr token ↦
            let (w'', reply) = do_request token w' in
            elim reply [
              | none ↦ (s', w'', inr none)
              | some (status, body) ↦
                  let (s2, w2, again) = token_of u token s' w'' in
                  if not (is_unauthorized status)
                  then (s', w'', inr (some (status, body)))
                  else elim again [
                    | inl e ↦ (s2, w2, inl e)
                    | inr fresh ↦ let (w3, reply') = do_request fresh w2 in (s2, w3, inr reply')
                  ]
            ]
      ]

  -- The end of attempt: a status outside 200 to 299 is an APIError.
  unfoldable pub outcome : Sent → Option (CallError E)
  outcome unreachable = some request_failed
  outcome (answered status decodes) =
      if ltb status 200 || leb 300 status
      then some (api_error status)
      else if decodes
      then none
      else some decode_failed

  -- attempt, with the token that it used; `send` issues the request that carries a token or none.
  unfoldable pub attempt :
      Bool
      → (Option String → W → W × Sent)
      → Times
      → String
      → Option Source
      → W
      → Option Source × W × String × Option (CallError E)
  attempt builds send t stale none w =
      let (w', sent) = send none w in
      if not builds then (none, w, "", some build_failed) else (none, w', "", outcome sent)
  attempt builds send t stale (some s) w =
      let (s', w', got) = token_of t stale s w in
      if not builds then (some s, w, "", some build_failed) else elim got [
        | inl e ↦ (some s', w', "", some (auth_failed e))
        | inr token ↦ let (w'', sent) = send (some token) w' in (some s', w'', token, outcome sent)
      ]

  -- Whether errors.As finds an APIError of status 401: in the login's error, which attempt wraps,
  -- `denied` says so.
  abbrev pub rejected : (E → Bool) → Option (CallError E) → Bool
  rejected denied none = false
  rejected denied (some build_failed) = false
  rejected denied (some request_failed) = false
  rejected denied (some decode_failed) = false
  rejected denied (some (auth_failed e)) = denied e
  rejected denied (some (api_error status)) = is_unauthorized status

  abbrev pub has_source : Option Source → Bool
  has_source none = false
  has_source (some s) = true

  -- DoJSON, of a body that marshals.
  unfoldable pub do_json :
      (E → Bool)
      → Bool
      → (Option String → W → W × Sent)
      → Times
      → Times
      → Option Source
      → W
      → Option Source × W × Option (CallError E)
  do_json denied builds send t u tokens w =
      let (tokens', w', used, err) = attempt builds send t "" tokens w in
      let (tokens'', w'', used', err') = attempt builds send u used tokens' w' in
      if has_source tokens && rejected denied err then (tokens'', w'', err') else (tokens', w', err)

-- ReadAllLimited of a source with these bytes; none is the error of a longer one. The limit of the
-- reader, one more than the bound, is an int64, and one below zero reads nothing.
abbrev pub max_response_bytes : ℕ
max_response_bytes = 8 * 1024 * 1024

unfoldable pub read_all_limited : List ℕ → ℤ → Option (List ℕ)
read_all_limited bytes max =
    let bound : ℕ = elim max [
      | pos n ↦ if n == 0 then max_response_bytes else n
      | negsuc n ↦ max_response_bytes
    ] in
    let read : List ℕ = elim (wrap64 (pos (bound + 1))) [ pos n ↦ take n bytes | negsuc n ↦ [] ] in
    if ltb bound (length read) then none else some read
