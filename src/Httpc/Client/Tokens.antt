-- ===== src/Httpc/Client/Tokens.antt =====
-- When the caching token source logs in (httpc/client.go).
use neokit.Base.{
  ◌≡◌, ◌≢◌, ◌⊎◌, ◌≤ℤ◌, ◌<ℤ◌, ◌-ℤ◌, pos, String, string_eq, List, [], ◌∷◌, inr, arith, refl, map,
  -ℤ_parts, +ℤ_parts, sym, ◌∙◌,
}
use neokit.Clock.{Instant, Duration, add}
use neokit.Httpc.Client.{Source, Times, expired, set_expiry, token_of}

module _ {W E : Type 0} (login : W → W × (E ⊎ (String × Duration))) where
  -- The callers whose requests were all rejected with the same token, one after the other.
  abbrev pub burst : String → List Times → Source → W → Source × W × List (E ⊎ String)
  burst stale [] s w = (s, w, [])
  burst stale (t ∷ ts) s w =
      let (s', w', r) = token_of login t stale s w in
      let (s'', w'', rs) = burst stale ts s' w' in (s'', w'', r ∷ rs)

  reuses :
      (t : Times) (stale : String) (s : Source) (w : W)
      → stale ≢ ""
      → s.token ≢ ""
      → s.token ≢ stale
      → token_of login t stale s w ≡ (s, w, inr s.token)
  unfolding token_of
  reuses t stale s w h k l = ground (
    arith,
    string_eq.beq_iff stale "",
    string_eq.beq_iff s.token "",
    string_eq.beq_iff s.token stale,
    h,
    k,
    l,
  )

  burst_reuses :
      (ts : List Times) (stale : String) (s : Source) (w : W)
      → stale ≢ ""
      → s.token ≢ ""
      → s.token ≢ stale
      → burst stale ts s w ≡ (s, w, map (λ t. inr s.token) ts)
  burst_reuses [] stale s w h k l = refl
  burst_reuses (t ∷ ts) stale s w h k l =
      rw (reuses t stale s w h k l, burst_reuses ts stale s w h k l) refl

  pub logs_in :
      (t : Times) (stale token : String) (ttl : Duration) (s : Source) (w w' : W)
      → stale ≢ ""
      → s.token ≡ stale
      → login w ≡ (w', inr (token, ttl))
      → token_of login t stale s w
        ≡ (set_expiry t.logged_in ttl (record s { token = token }), w', inr token)
  unfolding token_of
  logs_in t stale token ttl s w w' h k l =
      ground (arith, string_eq.beq_iff stale "", string_eq.beq_iff s.token stale, h, k, l)

  set_expiry_token :
      (now : Instant) (ttl : Duration) (s : Source) → (set_expiry now ttl s).token ≡ s.token
  unfolding set_expiry
  set_expiry_token now ttl s = ground arith

  -- However many callers were rejected with the cached token, if the first of them logs in and
  -- gets another one, that login is the only one: every caller is given the new token.
  pub burst_logs_in_once :
      (t : Times) (ts : List Times) (stale token : String) (ttl : Duration) (s : Source) (w w' : W)
      → stale ≢ ""
      → s.token ≡ stale
      → login w ≡ (w', inr (token, ttl))
      → token ≢ ""
      → token ≢ stale
      → burst stale (t ∷ ts) s w ≡ (
        set_expiry t.logged_in ttl (record s { token = token }),
        w',
        map (λ x. inr token) (t ∷ ts),
      )
  burst_logs_in_once t ts stale token ttl s w w' h k l m n =
      let s' = set_expiry t.logged_in ttl (record s { token = token }) in
      let e : s'.token ≡ token = set_expiry_token t.logged_in ttl (record s { token = token }) in
      rw
        (
          logs_in t stale token ttl s w w' h k l,
          burst_reuses ts stale s' w' h (λ x. m (sym e ∙ x)) (λ x. n (sym e ∙ x)),
          e,
        )
        refl

  -- A token that a login gave is handed out with no further login until the margin before its end,
  -- if it lasts longer than the margin, and until its end otherwise; from then on the next caller
  -- logs in. A token of no known lifetime is handed out for good.
  pub cached_until :
      (t u : Times) (token : String) (ttl : Duration) (s : Source) (w : W)
      → token ≢ ""
      → pos 0 <ℤ t.logged_in
      → let s' = set_expiry t.logged_in ttl (record s { token = token }) in
        (ttl ≤ℤ pos 0 → token_of login u "" s' w ≡ (s', w, inr token))
        × (s.margin <ℤ ttl
            → pos 0 ≤ℤ s.margin
            → u.asked <ℤ add t.logged_in (ttl -ℤ s.margin)
            → token_of login u "" s' w ≡ (s', w, inr token))
        × (pos 0 <ℤ ttl
            → ttl ≤ℤ s.margin
            → u.asked <ℤ add t.logged_in ttl
            → token_of login u "" s' w ≡ (s', w, inr token))
        × (s.margin <ℤ ttl
            → pos 0 ≤ℤ s.margin
            → add t.logged_in (ttl -ℤ s.margin) ≤ℤ u.asked
            → (token_of login u "" s' w).1 ≡ (login w).0)
  unfolding token_of set_expiry expired
  cached_until t u token ttl s w h k =
      let named = string_eq.beq_iff token "" in
      let sum = +ℤ_parts t.logged_in (ttl -ℤ s.margin) in
      let kept = -ℤ_parts ttl s.margin in
      let whole = +ℤ_parts t.logged_in ttl in
      (
        λ a. ground (arith, named, h, a),
        λ a b c. ground (arith, named, h, a, c),
        λ a b c. ground (arith, named, h, a, b, c),
        λ a b c. ground (arith, named, h, a, c, sum, kept),
      )
