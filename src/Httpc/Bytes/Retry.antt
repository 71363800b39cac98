-- ===== src/Httpc/Bytes/Retry.antt =====
-- Bytes against DoWithTokenRetry.
use neokit.Base.{
  ◌⊎◌, String, Option, ℤ, some, ℕ, ◌≡◌, List, inl, inr, Bool-cases, none, true, refl, arith,
}
use neokit.Clock.{Duration}
use neokit.Httpc.Client.{Source, Times, token_of, do_with_token_retry, is_unauthorized}
use neokit.Httpc.Bytes.{
  Response, BytesError, request_failed, auth_failed, status_of, read_reply, bounded, bytes,
}

module _ {W E : Type 0} (login : W → W × (E ⊎ (String × Duration))) where
  -- A request as DoWithTokenRetry is given it: its status, 0 for none, and all of the reply.
  abbrev pub with_status : (String → W → W × Response) → String → W → W × Option (ℕ × Response)
  with_status request token w =
      let (w', reply) = request token w in (w', some (status_of reply, reply))

  abbrev pub as_bytes : ℤ → E ⊎ Option (ℕ × Response) → BytesError E ⊎ (List ℕ × String)
  as_bytes max (inl e) = inl (auth_failed e)
  as_bytes max (inr none) = inl request_failed
  as_bytes max (inr (some (status, reply))) = read_reply (bounded max) reply

  abbrev Agree : (String → W → W × Response) → Times → Times → ℤ → Source → W → Type 0
  Agree request t u max s w =
      let (s', w', result) = do_with_token_retry login t u (with_status request) s w in
      bytes login request t u max (some s) w ≡ (some s', w', as_bytes max result)

  -- The refresh behind a status of 401.
  refreshed :
      (request : String → W → W × Response) (t u : Times) (max : ℤ) (s s' : Source) (w w' : W)
      (token : String) (r : Source × W × (E ⊎ String))
      → token_of login t "" s w ≡ (s', w', inr token)
      → is_unauthorized (status_of (request token w').1) ≡ true
      → token_of login u token s' (request token w').0 ≡ r
      → Agree request t u max s w
  unfolding bytes do_with_token_retry
  refreshed request t u max s s' w w' token (s2, w2, inl e) h k l = ground (arith, h, k, l)
  refreshed request t u max s s' w w' token (s2, w2, inr fresh) h k l = ground (arith, h, k, l)

  replied :
      (request : String → W → W × Response) (t u : Times) (max : ℤ) (s s' : Source) (w w' : W)
      (token : String)
      → token_of login t "" s w ≡ (s', w', inr token)
      → Agree request t u max s w
  unfolding bytes do_with_token_retry
  replied request t u max s s' w w' token h =
      elim (Bool-cases (is_unauthorized (status_of (request token w').1))) [
        | inl k ↦ refreshed request t u max s s' w w' token _ h k refl
        | inr k ↦ ground (arith, h, k)
      ]

  -- Bytes with a token source is DoWithTokenRetry: it asks for the same tokens, issues the same
  -- requests in the same order, and reads the reply that that one returns.
  pub bytes-do_with_token_retry :
      (request : String → W → W × Response) (t u : Times) (max : ℤ) (s : Source) (w : W)
      → let (s', w', result) = do_with_token_retry login t u (with_status request) s w in
        bytes login request t u max (some s) w ≡ (some s', w', as_bytes max result)
  unfolding bytes do_with_token_retry
  bytes-do_with_token_retry request t u max s w = first (token_of login t "" s w) refl
    where
      first :
          (r : Source × W × (E ⊎ String)) → token_of login t "" s w ≡ r → Agree request t u max s w
      first (s', w', inl e) h = ground (arith, h)
      first (s', w', inr token) h = replied request t u max s s' w w' token h
