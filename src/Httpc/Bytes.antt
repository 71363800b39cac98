-- ===== src/Httpc/Bytes.antt =====
-- httpc/bytes.go, image.go and the rest of client.go and http.go: Bytes, Image, send with the debug
-- ring, the errors of a status, redaction, and the set-up of a client. A URL's parser and printer
-- (net/url) are arguments, and the requests act on a world `W`.
pub mod Retry
use neokit.Base.{
  ℕ, ℤ, ◌⊎◌, Bool, List, Option, String, if◌then◌else◌, inl, leb, leb_ℤ, some, ◌&&◌, inr, not, pos,
  ltb, none, string_eq,
}
use neokit.Clock.{Instant, Duration, second}
use neokit.Text.{Text}
use neokit.Httpc.Transport.{RetryConfig, default_retry_config}
use neokit.Httpc.Client.{
  Source, Times, token_of, is_unauthorized, max_response_bytes, read_all_limited,
}
use neokit.Httpc.Debug.{DebugEntry, DebugRing, push}

-- What one request gives: it was not built, there is no response, or a response with its status, the
-- bytes of its body, none where the read breaks, and its Content-Type.
pub data Response : Type 0 where
  not_built no_response : Response
  responded : ℕ → Option (List ℕ) → String → Response

pub data BytesError (E : Type 0) : Type 0 where
  build_failed request_failed read_failed : BytesError E
  api_error : ℕ → BytesError E
  auth_failed : E → BytesError E

unfoldable pub status_of : Response → ℕ
status_of not_built = 0
status_of no_response = 0
status_of (responded status body ct) = status

abbrev pub successful : ℕ → Bool
successful status = leb 200 status && ltb status 300

-- The end of Bytes' attempt.
unfoldable pub read_reply : {E : Type 0} → ℤ → Response → BytesError E ⊎ (List ℕ × String)
read_reply max not_built = inl build_failed
read_reply max no_response = inl request_failed
read_reply max (responded status body ct) =
    if not (successful status) then inl (api_error status) else elim body [
      | none ↦ inl read_failed
      | some bytes ↦ elim (read_all_limited bytes max) [
        | none ↦ inl read_failed
        | some content ↦ inr (content, ct)
      ]
    ]

abbrev pub bounded : ℤ → ℤ
bounded max = if leb_ℤ max (pos 0) then pos max_response_bytes else max

module _ {W E : Type 0} (login : W → W × (E ⊎ (String × Duration))) where
  -- Bytes; `request` issues the request with a token, the empty one for none.
  unfoldable pub bytes :
      (String → W → W × Response)
      → Times
      → Times
      → ℤ
      → Option Source
      → W
      → Option Source × W × (BytesError E ⊎ (List ℕ × String))
  unfolding read_reply status_of
  bytes request t u max none w =
      let (w', reply) = request "" w in (none, w', read_reply (bounded max) reply)
  bytes request t u max (some s) w =
      let (s', w', got) = token_of login t "" s w in
      elim got [
        | inl e ↦ (some s', w', inl (auth_failed e))
        | inr token ↦
            let (w'', reply) = request token w' in
            let (s2, w2, again) = token_of login u token s' w'' in
            if not (is_unauthorized (status_of reply))
            then (some s', w'', read_reply (bounded max) reply)
            else elim again [
              | inl e ↦ (some s2, w2, inl (auth_failed e))
              | inr fresh ↦
                  let (w3, reply') = request fresh w2 in
                  (some s2, w3, read_reply (bounded max) reply')
            ]
      ]

-- Image, of what Bytes gives.
unfoldable pub image :
    {E : Type 0} → BytesError E ⊎ (List ℕ × String) → BytesError E ⊎ (List ℕ × String)
image (inl e) = inl e
image (inr (content, ct)) = inr (content, if string_eq.beq ct "" then "image/jpeg" else ct)
