-- ===== src/Httpc/Client/Calls.antt =====
-- The calls of a client (httpc/client.go).

use neokit.Base.{
  ap, ℕ, ◌≡◌, ◌≢◌, ◌⊎◌, Bool, true, false, String, string_eq, Option, none, some, inl, inr, arith,
  refl, Bool-cases,
}
use neokit.Clock.{Duration}
use neokit.Httpc.Client.{
  Source, Times, Sent, unreachable, answered, CallError, auth_failed, request_failed, expired,
  set_expiry, token_of, do_with_token_retry, outcome, attempt, rejected, do_json, is_unauthorized,
}
use neokit.Httpc.Client.Tokens.{logs_in}

module _ {W E : Type 0} (login : W → W × (E ⊎ (String × Duration))) (denied : E → Bool) where
  -- A request as DoWithTokenRetry is given it, and its result as DoJSON reports it.
  abbrev pub as_request : (Option String → W → W × Sent) → String → W → W × Option (ℕ × Bool)
  as_request send token w =
      let (w', sent) = send (some token) w in
      (w', elim sent [ unreachable ↦ none | answered status decodes ↦ some (status, decodes) ])

  abbrev pub as_error : E ⊎ Option (ℕ × Bool) → Option (CallError E)
  as_error (inl e) = some (auth_failed e)
  as_error (inr none) = some request_failed
  as_error (inr (some (status, decodes))) = outcome login (answered status decodes)

  abbrev Agree : (Option String → W → W × Sent) → Times → Times → Source → W → Type 0
  Agree send t u s w =
      let (s', w', result) = do_with_token_retry login t u (as_request send) s w in
      do_json login denied true send t u (some s) w ≡ (some s', w', as_error result)

  attempt_sent :
      (send : Option String → W → W × Sent) (t : Times) (stale token : String) (s s' : Source)
      (w w' : W)
      → token_of login t stale s w ≡ (s', w', inr token)
      → attempt login true send t stale (some s) w
        ≡ (some s', (send (some token) w').0, token, outcome login (send (some token) w').1)
  unfolding attempt
  attempt_sent send t stale token s s' w w' e = ground (arith, e)

  attempt_refused :
      (send : Option String → W → W × Sent) (t : Times) (stale : String) (s s' : Source) (w w' : W)
      (x : E)
      → token_of login t stale s w ≡ (s', w', inl x)
      → attempt login true send t stale (some s) w ≡ (some s', w', "", some (auth_failed x))
  unfolding attempt
  attempt_refused send t stale s s' w w' x e = ground (arith, e)

  outcome_unauthorized :
      (status : ℕ) (decodes : Bool)
      → rejected login denied (outcome login (answered status decodes)) ≡ is_unauthorized status
  unfolding outcome
  outcome_unauthorized status decodes = ground arith

  outcome_unreachable : outcome login unreachable ≡ some request_failed
  unfolding outcome
  outcome_unreachable = refl

  as_error_reply :
      (sent : Sent)
      → as_error (
          inr (elim sent [ unreachable ↦ none | answered status decodes ↦ some (status, decodes) ]))
        ≡ outcome login sent
  unfolding outcome
  as_error_reply unreachable = refl
  as_error_reply (answered status decodes) = refl

  -- DoJSON with a token source and a request that can be built is DoWithTokenRetry, unless the login
  -- for its first token fails with an error that holds an APIError of status 401: it asks for the
  -- same tokens, issues the same requests in the same order, and reports what that one returns. After
  -- such a failure DoJSON attempts the whole call once more, asking for a token as at first, and
  -- reports what that attempt does.
  pub do_json-do_with_token_retry :
      (send : Option String → W → W × Sent) (t u : Times) (s : Source) (w : W)
      → let (s', w', result) = do_with_token_retry login t u (as_request send) s w in
        (((e : E) → (token_of login t "" s w).2 ≡ inl e → denied e ≡ false)
          → do_json login denied true send t u (some s) w ≡ (some s', w', as_error result))
        × ((s1 : Source) (w1 : W) (e : E)
            → token_of login t "" s w ≡ (s1, w1, inl e)
            → denied e ≡ true
            → let (s2, w2, used, err) = attempt login true send u "" (some s1) w1 in
              do_json login denied true send t u (some s) w ≡ (s2, w2, err))
  unfolding do_json do_with_token_retry
  do_json-do_with_token_retry send t u s w = (
    λ mild. first mild (token_of login t "" s w) refl,
    λ s1 w1 e k d. ground (arith, attempt_refused send t "" s s1 w w1 e k, d),
  )
    where
      third :
          (s' : Source) (w' w'' : W) (token : String) (status : ℕ) (decodes : Bool)
          → token_of login t "" s w ≡ (s', w', inr token)
          → send (some token) w' ≡ (w'', answered status decodes)
          → is_unauthorized status ≡ true
          → (r : Source × W × (E ⊎ String)) → token_of login u token s' w'' ≡ r
          → Agree send t u s w
      third s' w' w'' token status decodes e f x (s2, w2, inl y) g = ground (
        arith,
        attempt_sent send t "" token s s' w w' e,
        outcome_unauthorized status decodes,
        attempt_refused send u token s' s2 w'' w2 y g,
        e,
        f,
        x,
        g,
      )
      third s' w' w'' token status decodes e f x (s2, w2, inr y) g = ground (
        arith,
        attempt_sent send t "" token s s' w w' e,
        outcome_unauthorized status decodes,
        attempt_sent send u token y s' s2 w'' w2 g,
        as_error_reply (send (some y) w2).1,
        e,
        f,
        x,
        g,
      )

      second :
          (s' : Source) (w' : W) (token : String)
          → token_of login t "" s w ≡ (s', w', inr token)
          → (r : W × Sent) → send (some token) w' ≡ r
          → Agree send t u s w
      second s' w' token e (w'', unreachable) f =
          ground (arith, attempt_sent send t "" token s s' w w' e, outcome_unreachable, e, f)
      second s' w' token e (w'', answered status decodes) f =
          elim (Bool-cases (is_unauthorized status)) [
            | inl x ↦
                third s' w' w'' token status decodes e f x (token_of login u token s' w'') refl
            | inr x ↦ ground (
              arith,
              attempt_sent send t "" token s s' w w' e,
              outcome_unauthorized status decodes,
              e,
              f,
              x,
            )
          ]

      first :
          ((e : E) → (token_of login t "" s w).2 ≡ inl e → denied e ≡ false)
          → (r : Source × W × (E ⊎ String)) → token_of login t "" s w ≡ r
          → Agree send t u s w
      first mild (s', w', inl x) e =
          ground (arith, attempt_refused send t "" s s' w w' x e, e, mild x (ap (λ r. r.2) e))
      first mild (s', w', inr token) e = second s' w' token e (send (some token) w') refl

  cached :
      (t : Times) (s : Source) (w : W)
      → s.token ≢ ""
      → expired t.asked s ≡ false
      → token_of login t "" s w ≡ (s, w, inr s.token)
  unfolding token_of
  cached t s w h k = ground (arith, string_eq.beq_iff s.token "", h, k)

  -- When the cached token is rejected with a 401 and a login gives another, the request goes out
  -- exactly once more, with the new token, and its result is the call's.
  pub do_json_reauthenticates :
      (send : Option String → W → W × Sent) (t u : Times) (s : Source) (w w' w'' : W)
      (decodes : Bool) (token : String) (ttl : Duration)
      → s.token ≢ ""
      → expired t.asked s ≡ false
      → send (some s.token) w ≡ (w', answered 401 decodes)
      → login w' ≡ (w'', inr (token, ttl))
      → do_json login denied true send t u (some s) w ≡ (
        some (set_expiry u.logged_in ttl (record s { token = token })),
        (send (some token) w'').0,
        outcome login (send (some token) w'').1,
      )
  unfolding do_json
  do_json_reauthenticates send t u s w w' w'' decodes token ttl h k l m = ground (
    arith,
    attempt_sent send t "" s.token s s w w (cached t s w h k),
    outcome_unauthorized 401 decodes,
    attempt_sent send u s.token token s (set_expiry u.logged_in ttl (record s { token = token })) w'
        w'' (logs_in login u s.token token ttl s w' w'' h refl m),
    l,
  )
