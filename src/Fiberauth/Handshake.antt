-- ===== src/Fiberauth/Handshake.antt =====
-- The handlers of a login (oidcauth/fiberauth/handshake.go). The provider, what is beyond it and the
-- store are passed from call to call as a `Server`. The secrets of a login, a session's token and id,
-- and the time are arguments, and so are base64 and the hash of a token, sha256 (session/token.go).
pub mod Callback
pub mod StateCookie
use neokit.Base.{
  Option, String, Bool, List, [], if◌then◌else◌, none, ◌∷◌, ◌≡◌, not, some, any, inl, map, ◌==◌,
  inr, false,
}
use neokit.Clock.{Instant}
use neokit.Fiberauth.{
  Gate, SetCookie, Answer, redirect, end_session, no_content, refused, Reason, for_expired,
  for_denied, for_provider, for_code, for_secret, for_token, for_unreachable, for_server, failure,
  clear_cookie, set_session_cookie, set_state_cookie, state_cookie_name, state_cookie_names,
  session_cookie_names,
}
use neokit.Fiberauth.Sanitize.{safe_return_path, bounded_description}
use neokit.Oidcauth.{blank, Handshake, valid}
use neokit.Oidcauth.Errors.{
  Sentinel, unresolved, untrusted, discovery_failed, client_rejected, code_rejected, token_invalid,
  token_endpoint_unreachable, not_configured,
}
use neokit.Oidcauth.Provider.{
  Upstream, Provider, cookie_secure, authorize_url, exchange, end_session_url,
}
use neokit.Session.{Identity, Session}
use neokit.Session.Policy.{expiry_for}
use neokit.Session.Store.{Store}
use neokit.Text.{Text, text_eq, codes, split, join}

-- base64.RawURLEncoding, whose alphabet is without the bar.
pub record Base64 : Type 0 where
  pub encode : Text → Text
  pub decode : Text → Option Text
  pub decode-encode : (s : Text) → decode (encode s) ≡ some s
  pub encode-barless : (s : Text) → any (λ c. c == 124) (encode s) ≡ false

-- reasonFor
unfoldable pub reason_for : Sentinel → Reason
reason_for client_rejected = for_secret
reason_for code_rejected = for_code
reason_for token_invalid = for_token
reason_for token_endpoint_unreachable = for_unreachable
reason_for unresolved = for_unreachable
reason_for untrusted = for_unreachable
reason_for discovery_failed = for_unreachable
reason_for not_configured = for_unreachable

module _ (b64 : Base64) (parse_url : Text → Option (Text × Text)) where
  -- The value that loginHandler writes.
  unfoldable pub state_cookie_value : Handshake → Text → Text
  state_cookie_value hs next =
      let path = b64.encode (safe_return_path parse_url next) in
      join (124 ∷ []) (hs.state ∷ hs.nonce ∷ hs.verifier ∷ path ∷ [])

  abbrev pub decoded : Option Text → Text
  decoded none = []
  decoded (some s) = s

  -- parseStateCookie
  unfoldable pub parse_state_cookie : Text → Option (Handshake × Text)
  parse_state_cookie raw = elim (split 124 raw) [
    | state ∷ nonce ∷ verifier ∷ path ∷ [] ↦
        let hs : Handshake = record { state = state; nonce = nonce; verifier = verifier } in
        if not (valid hs)
        then none
        else some (hs, safe_return_path parse_url (decoded (b64.decode path)))
    | _ ↦ none
  ]

-- What the handlers share: the relying party, when a login is configured, the world that it talks to,
-- and the rows of the store.
pub record Server (W M R : Type 0) : Type 0 where
  pub provider : Option (Provider M)
  pub world : W
  pub rows : R

-- The cookies and the query of a callback; what is missing is blank.
pub record Request : Type 0 where
  pub cookies : Text → Text
  pub query_state : Text
  pub query_error : Text
  pub query_code : Text
  pub agent : Text

-- What a sign-in draws: the token, the id of the session, and the time.
pub record Draw : Type 0 where
  pub token : Text
  pub session_id : String
  pub now : Instant

-- The session that issueSession stores.
abbrev pub session_of : Gate → Draw → Text → Identity → Session
session_of g d agent id = record {
  id = d.session_id;
  subject = id.subject;
  name = id.name;
  email = id.email;
  groups = id.groups;
  owner = id.owner;
  user_agent = bounded_description agent;
  created_at = d.now;
  last_seen_at = d.now;
  expires_at = expiry_for g.policy d.now d.now;
}

module _ {R : Type 0} (sessions : Option (Store R)) (hash_token : Text → String) (g : Gate) where
  -- issueSession; `none` is its error.
  unfoldable pub issue_session : Draw → Text → Bool → Identity → R → R × Option SetCookie
  issue_session d agent secure id r = elim sessions [
    | none ↦ (r, none)
    | some store ↦
        let (r', ok) = store.create_session (session_of g d agent id) (hash_token d.token) r in
        if not ok
        then (r', none)
        else (r', some (set_session_cookie g d.token (expiry_for g.policy d.now d.now) secure))
  ]

module _ {W M R : Type 0} (up : Upstream W M) (sessions : Option (Store R))
    (hash_token : Text → String) (b64 : Base64) (parse_url : Text → Option (Text × Text))
    (g : Gate) where
  -- loginHandler
  unfoldable pub login_handler :
      Handshake → Instant → Text → Server W M R → Server W M R × List SetCookie × Answer
  login_handler hs now next s = elim s.provider [
    | none ↦ (s, [], refused 404)
    | some p ↦
        let (p', w', got) = authorize_url up hs.state hs.nonce hs.verifier p s.world in
        let s' : Server W M R = record { provider = some p'; world = w'; rows = s.rows } in
        elim got [
          | inl e ↦ (s', [], failure g for_unreachable)
          | inr address ↦
              let value = state_cookie_value b64 parse_url hs next in
              (s', set_state_cookie g value (cookie_secure up p') now ∷ [], redirect address)
        ]
  ]

  abbrev pub denial : Text → Reason
  denial e = if text_eq e (codes "access_denied") then for_denied else for_provider

  -- callbackHandler up to its deferred clearing of the handshake cookie.
  unfoldable pub complete :
      Draw → Request → Provider M → W → R → Provider M × W × R × Option SetCookie × Answer
  complete d req p w r =
      let secure = cookie_secure up p in
      elim (parse_state_cookie b64 parse_url (req.cookies (state_cookie_name g secure))) [
        | none ↦ (p, w, r, none, failure g for_expired)
        | some (hs, next) ↦
            let (p', w', got) = exchange up req.query_code hs.nonce hs.verifier p w in
            if not (text_eq req.query_state hs.state)
            then (p, w, r, none, failure g for_expired)
            else if not (blank req.query_error)
            then (p, w, r, none, failure g (denial req.query_error))
            else if blank req.query_code
            then (p, w, r, none, failure g for_provider)
            else elim got [
              | inl (sentinel, detail) ↦ (p', w', r, none, failure g (reason_for sentinel))
              | inr id ↦
                  let (r', cookie) = issue_session sessions hash_token g d req.agent secure id r in
                  elim cookie [
                    | none ↦ (p', w', r', none, failure g for_server)
                    | some c ↦ (p', w', r', some c, redirect next)
                  ]
            ]
      ]

  -- callbackHandler
  unfoldable pub callback_handler :
      Draw → Request → Server W M R → Server W M R × List SetCookie × Answer
  callback_handler d req s = elim s.provider [
    | none ↦ (s, [], refused 404)
    | some p ↦
        let (p', w', r', cookie, answer) = complete d req p s.world s.rows in
        let s' : Server W M R = record { provider = some p'; world = w'; rows = r' } in
        let gone = map clear_cookie (state_cookie_names g) in
        elim cookie [ none ↦ (s', gone, answer) | some c ↦ (s', c ∷ gone, answer) ]
  ]
