-- ===== src/Fiberauth/Middleware/Resolving.antt =====
-- Whom a session cookie resolves to (oidcauth/fiberauth/middleware.go, oidcauth/fiberauth/handshake.go).
use neokit.Base.{
  +ℤ_parts, ◌<ℤ◌, pos, ◌≤ℤ◌, ap, String, Bool, if◌then◌else◌, some, ◌≡◌, false, none, arith, ◌⊎◌,
  ◌≢◌, [], true, Option, refl, subst, ◌∷◌, inl, ◌∙◌, Bool-cases, sym, inr,
}
use neokit.Clock.{Instant, add, second, max_duration, zero_time}
use neokit.Fiberauth.{Gate, SetCookie, session_cookie_name, set_session_cookie}
use neokit.Fiberauth.Handshake.{Draw, session_of, issue_session}
use neokit.Fiberauth.Middleware.{resolve_session}
use neokit.Oidcauth.{blank}
use neokit.Oidcauth.Provider.{Upstream, Provider, cookie_secure, is_owner}
use neokit.Session.{Identity, Session, identity}
use neokit.Session.Policy.Lifetime.{live_iff, expiry_for_bounds, idle_pos, idle, cap, cap_pos}
use neokit.Session.Policy.{Policy, expiry_for, live, needs_touch}
use neokit.Session.Store.{Store, Cut}
use neokit.Text.{Text}

present : (s : Text) → s ≢ [] → blank s ≡ false
present [] h = ground (arith, h)
present (c ∷ s) h = refl

-- A new session as it was kept, and its expiry.
lives :
    (p : Policy) (start now : Instant) (kept : Session)
    → let expiry = expiry_for p start start in
      pos second ≤ℤ start
      → p.max_lifetime ≤ℤ max_duration
      → Cut kept.created_at start
      → Cut kept.expires_at expiry
      → add now (pos second) ≤ℤ expiry
      → live p kept now ≡ true
lives p start now kept t m c x k =
    let b = expiry_for_bounds p start start (λ z. ground (arith, z, t)) in
    (live_iff p kept now m).1 (
      inr (
          omega (arith, c, x, k, +ℤ_parts now (pos second), +ℤ_parts kept.expires_at (pos second))),
      inr (
          omega (
            arith,
            c,
            k,
            b.1,
            +ℤ_parts now (pos second),
            +ℤ_parts kept.created_at (pos second),
            +ℤ_parts start (cap p),
            +ℤ_parts kept.created_at (cap p),
          )),
    )

starts_before :
    (p : Policy) (start : Instant) → start ≢ zero_time → start <ℤ expiry_for p start start
starts_before p start z = elim ((expiry_for_bounds p start start z).2) [
  | inl e ↦ rw e (omega (arith, idle_pos p, +ℤ_parts start (idle p)))
  | inr e ↦ rw e (omega (arith, cap_pos p, +ℤ_parts start (cap p)))
]

dies :
    (p : Policy) (start now : Instant) (kept : Session)
    → let expiry = expiry_for p start start in
      pos second ≤ℤ start
      → p.max_lifetime ≤ℤ max_duration
      → Cut kept.expires_at expiry
      → expiry ≤ℤ now
      → live p kept now ≡ false
dies p start now kept t m x k = elim (Bool-cases (live p kept now)) [
  | inr f ↦ f
  | inl l ↦ elim ((live_iff p kept now m).0 l).0 [
    | inl z ↦
        let s = starts_before p start (λ z. ground (arith, z, t)) in
        ground (arith, z, s, x, t, +ℤ_parts kept.expires_at (pos second))
    | inr h ↦ ground (arith, h, x, k)
  ]
]

module _ {W M R : Type 0} (up : Upstream W M) (store : Store R) (hash_token : Text → String)
    (g : Gate) where
  -- The identity of a session, with ownership by the provider's present rule.
  abbrev pub identity_under : Provider M → Session → Identity
  identity_under p sess = record (identity sess) { owner = is_owner up p.cfg sess.groups }

  -- The rows after a session was seen.
  abbrev pub seen : Instant → Session → R → R
  seen now sess r =
      if needs_touch g.policy sess now
      then (store.touch_session sess.id now (expiry_for g.policy sess.created_at now) r).0
      else r

  found_resolves :
      (now : Instant) (cookies : Text → Text) (p : Provider M) (r : R) (sess : Session)
      → blank (cookies (session_cookie_name g (cookie_secure up p))) ≡ false
      → store.session_by_token (hash_token (cookies (session_cookie_name g (cookie_secure up p)))) r
        ≡ some (some sess)
      → resolve_session up hash_token g (some store) now cookies p r ≡ (
          if live g.policy sess now
          then (seen now sess r, some (identity_under p sess))
          else (r, none))
  unfolding resolve_session
  found_resolves now cookies p r sess h k = ground (arith, h, k)

  -- A request is somebody's only by a session cookie that is not blank, whose token's hash the store
  -- finds a session for that is live now: the identity is that session's, but an owner by the rule
  -- configured now; the store is changed by recording the activity at most. In every other case the
  -- request is nobody's and the store is as before.
  pub resolve_session-Live :
      (now : Instant) (cookies : Text → Text) (p : Provider M) (r : R)
      → let (r', who) = resolve_session up hash_token g (some store) now cookies p r in
        let token = cookies (session_cookie_name g (cookie_secure up p)) in
        ((r' ≡ r) × (who ≡ none))
        ⊎ ((sess : Session) × (token ≢ [])
            × (store.session_by_token (hash_token token) r ≡ some (some sess))
            × (live g.policy sess now ≡ true)
            × (who ≡ some (identity_under p sess))
            × (r' ≡ seen now sess r))
  unfolding resolve_session
  resolve_session-Live now cookies p r = step (store.session_by_token (hash_token token) r) refl
    where
      token : Text
      token = cookies (session_cookie_name g (cookie_secure up p))

      Cases : R × Option Identity → Type 0
      Cases (r', who) =
          ((r' ≡ r) × (who ≡ none))
          ⊎ ((sess : Session) × (token ≢ [])
              × (store.session_by_token (hash_token token) r ≡ some (some sess))
              × (live g.policy sess now ≡ true)
              × (who ≡ some (identity_under p sess))
              × (r' ≡ seen now sess r))

      seen_case :
          (sess : Session)
          → store.session_by_token (hash_token token) r ≡ some (some sess)
          → (t : Text) → token ≡ t
          → Cases (resolve_session up hash_token g (some store) now cookies p r)
      seen_case sess k [] e = inl (ground (arith, k, e))
      seen_case sess k (c ∷ t) e = elim (Bool-cases (live g.policy sess now)) [
        | inl l ↦
            inr (sess, ground (arith, e), k, l, ground (arith, k, e, l), ground (arith, k, e, l))
        | inr l ↦ inl (ground (arith, k, e, l))
      ]

      step :
          (o : Option (Option Session))
          → store.session_by_token (hash_token token) r ≡ o
          → Cases (resolve_session up hash_token g (some store) now cookies p r)
      step none k = inl (ground (arith, k))
      step (some none) k = inl (ground (arith, k))
      step (some (some sess)) k = seen_case sess k token refl

  made :
      (d : Draw) (agent : Text) (secure : Bool) (id : Identity) (r r' : R) (c : SetCookie)
      → issue_session (some store) hash_token g d agent secure id r ≡ (r', some c)
      → (store.create_session (session_of g d agent id) (hash_token d.token) r ≡ (r', true))
        × (c.cookie_name ≡ session_cookie_name g secure)
        × (c.value ≡ d.token)
  unfolding issue_session set_session_cookie
  made d agent secure id r r' c h =
      step (store.create_session (session_of g d agent id) (hash_token d.token) r).1 refl
    where
      step :
          (ok : Bool)
          → (store.create_session (session_of g d agent id) (hash_token d.token) r).1 ≡ ok
          → (store.create_session (session_of g d agent id) (hash_token d.token) r ≡ (r', true))
            × (c.cookie_name ≡ session_cookie_name g secure)
            × (c.value ≡ d.token)
      step true e = ground (arith, h, e)
      step false e = ground (arith, h, e)

  -- A browser that sends back the cookie that it was given at its login.
  returns_kept :
      (d : Draw) (agent : Text) (id : Identity) (r r' : R) (c : SetCookie) (now : Instant)
      (cookies : Text → Text) (p : Provider M)
      → issue_session (some store) hash_token g d agent (cookie_secure up p) id r ≡ (r', some c)
      → d.token ≢ []
      → cookies c.cookie_name ≡ c.value
      → let sess = store.kept (session_of g d agent id) in
        resolve_session up hash_token g (some store) now cookies p r' ≡ (
          if live g.policy sess now
          then (seen now sess r', some (identity_under p sess))
          else (r', none))
  returns_kept d agent id r r' c now cookies p h n e =
      let (a, b, t) = made d agent (cookie_secure up p) id r r' c h in
      let sent = subst (λ name. cookies name ≡ c.value) b e ∙ t in
      found_resolves now cookies p r' (store.kept (session_of g d agent id))
        (subst (λ v. blank v ≡ false) (sym sent) (present d.token n))
        (subst
          (λ v.
            store.session_by_token (hash_token v) r'
            ≡ some (some (store.kept (session_of g d agent id))))
          (sym sent)
          (store.session_by_token-create_session (session_of g d agent id) (hash_token d.token) r r'
            a))

  user_kept :
      (d : Draw) (agent : Text) (id : Identity) (p : Provider M)
      → identity_under p (store.kept (session_of g d agent id))
        ≡ record id { owner = is_owner up p.cfg id.groups }
  unfolding identity
  user_kept d agent id p =
      ap {A = Identity} (λ i. record i { owner = is_owner up p.cfg i.groups })
        (store.identity-kept (session_of g d agent id))

  -- For a policy whose cap fits a duration and a login a second or more after the zero time: a
  -- browser that was signed in as somebody and sends back the cookie that it was given is that
  -- user, an owner exactly if the rule that is configured when it comes back says so, up to a second
  -- before the expiry that the policy gives the session at its creation; from that expiry on it is
  -- nobody, and in the second between it is that user or nobody, as the store cuts instants.
  pub issue_session-resolve_session :
      (d : Draw) (agent : Text) (id : Identity) (r r' : R) (c : SetCookie) (now : Instant)
      (cookies : Text → Text) (p : Provider M)
      → issue_session (some store) hash_token g d agent (cookie_secure up p) id r ≡ (r', some c)
      → d.token ≢ []
      → cookies c.cookie_name ≡ c.value
      → pos second ≤ℤ d.now
      → g.policy.max_lifetime ≤ℤ max_duration
      → let expiry = expiry_for g.policy d.now d.now in
        let user = record id { owner = is_owner up p.cfg id.groups } in
        let (rows, who) = resolve_session up hash_token g (some store) now cookies p r' in
        (add now (pos second) ≤ℤ expiry → who ≡ some user)
        × (expiry ≤ℤ now → (rows ≡ r') × (who ≡ none))
        × ((who ≡ some user) ⊎ (who ≡ none))
  issue_session-resolve_session d agent id r r' c now cookies p h n e t m =
      let sess = session_of g d agent id in
      let kept = store.kept sess in
      rw (returns_kept d agent id r r' c now cookies p h n e, user_kept d agent id p)
        (
          λ k.
              let l =
                lives g.policy d.now now kept t m (store.created_at-kept sess)
                  (store.expires_at-kept sess) k in
              rw l refl,
          λ k.
              let l = dies g.policy d.now now kept t m (store.expires_at-kept sess) k in
              rw l (refl, refl),
          elim (Bool-cases (live g.policy kept now)) [
            | inl l ↦ inl (rw l refl)
            | inr l ↦ inr (rw l refl)
          ],
        )
