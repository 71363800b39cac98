-- ===== src/Fiberauth/Logout.antt =====
-- The logout handler (oidcauth/fiberauth/handshake.go) and what a sign-out leaves.
use neokit.Base.{
  Option, String, List, some, none, ◌≡◌, ◌∷◌, if◌then◌else◌, map, [], arith, inl, inr, Bool-cases,
  refl, true, ap, ◌⊎◌, subst, Bool, ◌++◌, sym, false,
}
use neokit.Fiberauth.{
  host_prefix, Gate, SetCookie, Answer, no_content, end_session, clear_cookie, session_cookie_names,
  Instant, session_cookie_name,
}
use neokit.Fiberauth.Handshake.{Server}
use neokit.Fiberauth.Middleware.{resolve_session}
use neokit.Oidcauth.{blank}
use neokit.Oidcauth.Provider.{Upstream, end_session_url, Provider, cookie_secure}
use neokit.Session.{Session}
use neokit.Session.Store.{Store}
use neokit.Text.{Text}

module _ {R : Type 0} (hash_token : Text → String) where
  -- The deletions of logoutHandler, by the names of the session cookie.
  unfoldable pub sign_out : Store R → (Text → Text) → List Text → R → R
  sign_out store cookies [] r = r
  sign_out store cookies (name ∷ names) r =
      let r' = (store.delete_session_by_token (hash_token (cookies name)) r).0 in
      sign_out store cookies names (if blank (cookies name) then r else r')

module _ {W M R : Type 0} (up : Upstream W M) (sessions : Option (Store R))
    (hash_token : Text → String) (g : Gate) where
  -- logoutHandler
  unfoldable pub logout_handler :
      (Text → Text) → Server W M R → Server W M R × List SetCookie × Answer
  logout_handler cookies s =
      let names = session_cookie_names g in
      let r : R = elim sessions [
        | none ↦ s.rows
        | some store ↦ sign_out hash_token store cookies names s.rows
      ] in
      let gone = map clear_cookie names in
      elim s.provider [
        | none ↦ (record s { rows = r }, gone, no_content)
        | some p ↦
            let (p', w', got) = end_session_url up p s.world in
            let s' : Server W M R = record { provider = some p'; world = w'; rows = r } in
            elim got [
              | inl e ↦ (s', gone, no_content)
              | inr none ↦ (s', gone, no_content)
              | inr (some address) ↦ (s', gone, end_session address)
            ]
      ]

module _ {W M R : Type 0} (up : Upstream W M) (store : Store R) (hash_token : Text → String)
    (g : Gate) where
  logged_out :
      (cookies : Text → Text) (s : Server W M R)
      → ((logout_handler up (some store) hash_token g cookies s).0.rows
          ≡ sign_out hash_token store cookies (session_cookie_names g) s.rows)
        × ((logout_handler up (some store) hash_token g cookies s).1
            ≡ map clear_cookie (session_cookie_names g))
  unfolding logout_handler
  logged_out cookies s = ground arith

  -- The cookie is blank, or its token finds no session.
  abbrev Out : (Text → Text) → Text → R → Type 0
  Out cookies name r =
      (blank (cookies name) ≡ true)
      ⊎ (store.session_by_token (hash_token (cookies name)) r ≡ some none)

  abbrev pub Reliable : Type 0
  Reliable = (h : String) (r : R) → (store.delete_session_by_token h r).1 ≡ true

  abbrev after_one : (Text → Text) → Text → R → R
  after_one cookies name r =
      if blank (cookies name)
      then r
      else (store.delete_session_by_token (hash_token (cookies name)) r).0

  after_one-Out :
      Reliable
      → (cookies : Text → Text) (name : Text) (r : R) → Out cookies name (after_one cookies name r)
  after_one-Out ok cookies name r = elim (Bool-cases (blank (cookies name))) [
    | inl e ↦ inl e
    | inr e ↦ inr (
        rw e (
          store.session_by_token-delete_session_by_token (hash_token (cookies name)) r
            (store.delete_session_by_token (hash_token (cookies name)) r).0
            (ap (λ b. ((store.delete_session_by_token (hash_token (cookies name)) r).0, b))
              (ok (hash_token (cookies name)) r))))
  ]

  stays-Out :
      (cookies : Text → Text) (name other : Text) (r : R)
      → Out cookies name r
      → Out cookies name (after_one cookies other r)
  stays-Out cookies name other r (inl e) = inl e
  stays-Out cookies name other r (inr e) = inr (elim (Bool-cases (blank (cookies other))) [
    | inl k ↦ rw k e
    | inr k ↦ rw k (
        store.session_by_token-delete_other (hash_token (cookies name)) (hash_token (cookies other))
          r e)
  ])

  unresolved-Out :
      (now : Instant) (cookies : Text → Text) (p : Provider M) (r : R)
      → Out cookies (session_cookie_name g (cookie_secure up p)) r
      → (resolve_session up hash_token g (some store) now cookies p r).1 ≡ none
  unfolding resolve_session
  unresolved-Out now cookies p r (inl e) =
      step
        (store.session_by_token (hash_token (cookies (session_cookie_name g (cookie_secure up p))))
          r)
        refl
    where
      step :
          (o : Option (Option Session))
          → store.session_by_token
              (hash_token (cookies (session_cookie_name g (cookie_secure up p))))
              r
            ≡ o
          → (resolve_session up hash_token g (some store) now cookies p r).1 ≡ none
      step none k = ground (arith, e, k)
      step (some none) k = ground (arith, e, k)
      step (some (some s)) k = ground (arith, e, k)
  unresolved-Out now cookies p r (inr e) = ground (arith, e)

  both-Out :
      Reliable
      → (secure : Bool) (cookies : Text → Text) (r : R)
      → Out cookies
          (session_cookie_name g secure)
          (sign_out hash_token store cookies (session_cookie_names g) r)
  unfolding session_cookie_name sign_out
  both-Out ok true cookies r =
      stays-Out cookies (host_prefix ++ g.session_cookie) g.session_cookie
        (after_one cookies (host_prefix ++ g.session_cookie) r)
        (after_one-Out ok cookies (host_prefix ++ g.session_cookie) r)
  both-Out ok false cookies r =
      after_one-Out ok cookies g.session_cookie
        (after_one cookies (host_prefix ++ g.session_cookie) r)

  -- After a sign-out against a store whose deletions do not fail, neither token that the browser sent
  -- is a session: the same cookies resolve to no identity, at any time and under any provider, whatever
  -- scheme it is served by; and both names of the session cookie are cleared. What the provider answers
  -- about ending its own session changes none of that.
  pub logout_handler-resolve_session :
      Reliable
      → (cookies : Text → Text) (s : Server W M R) (now : Instant) (p : Provider M)
      → let (s', gone, answer) = logout_handler up (some store) hash_token g cookies s in
        ((resolve_session up hash_token g (some store) now cookies p s'.rows).1 ≡ none)
        × (gone ≡ map clear_cookie (session_cookie_names g))
  logout_handler-resolve_session ok cookies s now p = (
    unresolved-Out now cookies p (logout_handler up (some store) hash_token g cookies s).0.rows (
        subst (Out cookies (session_cookie_name g (cookie_secure up p)))
          (sym (logged_out cookies s).0) (both-Out ok (cookie_secure up p) cookies s.rows)),
    (logged_out cookies s).1,
  )
