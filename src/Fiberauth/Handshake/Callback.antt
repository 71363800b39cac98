-- ===== src/Fiberauth/Handshake/Callback.antt =====
-- What a callback and a sign-out do (oidcauth/fiberauth/handshake.go).
use neokit.Base.{
  Option, String, ◌≡◌, none, some, [], ◌⊎◌, ◌≢◌, inr, Bool, inl, arith, refl, List, map, ◌∷◌, subst,
  sym, ap,
}
use neokit.Fiberauth.{
  Gate, SetCookie, Answer, redirect, failure, for_server, state_cookie_name, clear_cookie,
  state_cookie_names,
}
use neokit.Fiberauth.Handshake.{
  Base64, Request, Draw, parse_state_cookie, issue_session, complete, Server, callback_handler,
}
use neokit.Oidcauth.{Handshake}
use neokit.Oidcauth.Errors.{OidcError}
use neokit.Oidcauth.Provider.{Upstream, Provider, cookie_secure, exchange}
use neokit.Session.{Identity}
use neokit.Session.Store.{Store}
use neokit.Text.{Text, text_eq_iff}

module _ {W M R : Type 0} (up : Upstream W M) (sessions : Option (Store R))
    (hash_token : Text → String) (b64 : Base64) (parse_url : Text → Option (Text × Text))
    (g : Gate) where
  -- The browser holds the handshake of this login, the provider reports no error, and its code is
  -- exchanged for an identity.
  abbrev pub Proven :
      Request → Provider M → W → Provider M × W → Handshake → Text → Identity → Type 0
  Proven req p w (p', w') hs next id =
      (parse_state_cookie b64 parse_url (req.cookies (state_cookie_name g (cookie_secure up p)))
        ≡ some (hs, next))
      × (req.query_state ≡ hs.state)
      × (req.query_error ≡ [])
      × (req.query_code ≢ [])
      × (exchange up req.query_code hs.nonce hs.verifier p w ≡ (p', w', inr id))

  complete-Proven :
      (d : Draw) (req : Request) (p p' : Provider M) (w w' : W) (r r' : R)
      (cookie : Option SetCookie) (answer : Answer)
      → complete up sessions hash_token b64 parse_url g d req p w r ≡ (p', w', r', cookie, answer)
      → ((r' ≡ r) × (cookie ≡ none))
        ⊎ ((hs : Handshake) × (next : Text) × (id : Identity) × Proven req p w (p', w') hs next id
            × (issue_session sessions hash_token g d req.agent (cookie_secure up p) id r
                ≡ (r', cookie))
            × (answer ≡ elim cookie [ none ↦ failure g for_server | some c ↦ redirect next ]))
  unfolding complete
  complete-Proven d req p p' w w' r r' cookie answer h =
      step (parse_state_cookie b64 parse_url (req.cookies (state_cookie_name g secure))) refl
    where
      secure : Bool
      secure = cookie_secure up p

      read : Option (Handshake × Text)
      read = parse_state_cookie b64 parse_url (req.cookies (state_cookie_name g secure))

      Result : Type 0
      Result =
          ((r' ≡ r) × (cookie ≡ none))
          ⊎ ((hs : Handshake) × (next : Text) × (id : Identity) × Proven req p w (p', w') hs next id
              × (issue_session sessions hash_token g d req.agent secure id r ≡ (r', cookie))
              × (answer ≡ elim cookie [ none ↦ failure g for_server | some c ↦ redirect next ]))

      Facts : Handshake → Text → Provider M → W → R → Option SetCookie → Type 0
      Facts hs next q v r2 made =
          (req.query_state ≡ hs.state)
          × (req.query_error ≡ [])
          × (req.query_code ≢ [])
          × (q ≡ p')
          × (v ≡ w')
          × (r2 ≡ r')
          × (made ≡ cookie)
          × (answer ≡ elim cookie [ none ↦ failure g for_server | some c ↦ redirect next ])

      decided :
          (hs : Handshake) (next : Text) (q : Provider M) (v : W) (id : Identity) (r2 : R)
          (made : Option SetCookie)
          → read ≡ some (hs, next)
          → exchange up req.query_code hs.nonce hs.verifier p w ≡ (q, v, inr id)
          → issue_session sessions hash_token g d req.agent secure id r ≡ (r2, made)
          → ((r' ≡ r) × (cookie ≡ none)) ⊎ Facts hs next q v r2 made
      decided hs next q v id r2 none e x i =
          ground (arith, h, e, x, i, text_eq_iff req.query_state hs.state)
      decided hs next q v id r2 (some c) e x i =
          ground (arith, h, e, x, i, text_eq_iff req.query_state hs.state)

      issued :
          (hs : Handshake) (next : Text) (q : Provider M) (v : W) (id : Identity) (r2 : R)
          (made : Option SetCookie)
          → read ≡ some (hs, next)
          → exchange up req.query_code hs.nonce hs.verifier p w ≡ (q, v, inr id)
          → issue_session sessions hash_token g d req.agent secure id r ≡ (r2, made)
          → Result
      issued hs next q v id r2 made e x i = elim (decided hs next q v id r2 made e x i) [
        | inl k ↦ inl k
        | inr (a, b, c, q≡, v≡, r≡, m≡, n) ↦ inr (hs, next, id, (e, a, b, c, cc), cc, n)
      ]

      exchanged :
          (hs : Handshake) (next : Text) (q : Provider M) (v : W) (got : OidcError ⊎ Identity)
          → read ≡ some (hs, next)
          → exchange up req.query_code hs.nonce hs.verifier p w ≡ (q, v, got)
          → Result
      exchanged hs next q v (inl (sentinel, detail)) e x = inl (ground (arith, h, e, x))
      exchanged hs next q v (inr id) e x =
          let issue = issue_session sessions hash_token g d req.agent secure id r in
          issued hs next q v id issue.0 issue.1 e x refl

      step : (o : Option (Handshake × Text)) → read ≡ o → Result
      step none e = inl (ground (arith, h, e))
      step (some (hs, next)) e =
          let out = exchange up req.query_code hs.nonce hs.verifier p w in
          exchanged hs next out.0 out.1 out.2 e refl

  abbrev pub gone : List SetCookie
  gone = map clear_cookie (state_cookie_names g)

  abbrev pub beside : Option SetCookie → List SetCookie
  beside none = gone
  beside (some c) = c ∷ gone

  -- The server, the cookies and the answer that a completed callback leaves.
  abbrev pub Left :
      Request → Server W M R → Provider M → Draw → Server W M R × List SetCookie × Answer → Type 0
  Left req s p d (s', cookies, answer) =
      ((s'.rows ≡ s.rows) × (cookies ≡ gone))
      ⊎ ((hs : Handshake) × (next : Text) × (id : Identity) × (p' : Provider M) × (made : Option
            SetCookie)
          × (s'.provider ≡ some p')
          × Proven req p s.world (p', s'.world) hs next id
          × (issue_session sessions hash_token g d req.agent (cookie_secure up p) id s.rows
              ≡ (s'.rows, made))
          × (cookies ≡ beside made)
          × (answer ≡ elim made [ none ↦ failure g for_server | some c ↦ redirect next ]))

  handled :
      (d : Draw) (req : Request) (s : Server W M R) (p p' : Provider M) (w' : W) (r' : R)
      (cookie : Option SetCookie) (answer : Answer)
      → s.provider ≡ some p
      → complete up sessions hash_token b64 parse_url g d req p s.world s.rows
        ≡ (p', w', r', cookie, answer)
      → callback_handler up sessions hash_token b64 parse_url g d req s
        ≡ (record { provider = some p'; world = w'; rows = r' }, beside cookie, answer)
  unfolding callback_handler
  handled d req s p p' w' r' none answer h e = ground (arith, h, e)
  handled d req s p p' w' r' (some c) answer h e = ground (arith, h, e)

  -- A callback writes to the store, and sets a cookie beside clearing those of the handshake, only for
  -- a sign-in that is proven: the browser's handshake cookie is whole and holds the state of the query,
  -- the provider reports no error, and its code was exchanged under the cookie's nonce and verifier for
  -- the identity that the session is issued to. Every callback with a login configured clears both
  -- names of the handshake cookie, and a sign-in that succeeds returns to the path of that cookie.
  pub callback_handler-Proven :
      (d : Draw) (req : Request) (s : Server W M R) (p : Provider M)
      → s.provider ≡ some p
      → let (s', cookies, answer) =
          callback_handler up sessions hash_token b64 parse_url g d req s in
        Left req s p d (s', cookies, answer)
  callback_handler-Proven d req s p h =
      let out = complete up sessions hash_token b64 parse_url g d req p s.world s.rows in
      let (p', w', r', cookie, answer) = out in
      subst (Left req s p d) (sym (handled d req s p p' w' r' cookie answer h refl))
        (elim (complete-Proven d req p p' s.world w' s.rows r' cookie answer refl) [
          | inl (a, b) ↦ inl (a, ap beside b)
          | inr (hs, next, id, proven, i, n) ↦
              inr (hs, next, id, p', cookie, refl, proven, i, refl, n)
        ])
