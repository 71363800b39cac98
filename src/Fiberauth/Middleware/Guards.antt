-- ===== src/Fiberauth/Middleware/Guards.antt =====
-- Who reaches the session routes (oidcauth/fiberauth/middleware.go, oidcauth/fiberauth/sessions.go).
use neokit.Base.{
  Bool, Option, String, List, ◌≡◌, false, inr, true, arith, is_some, none, some, map, ◌⊎◌,
  Bool-cases, refl, inl, ◌∷◌, ap, ◌∙◌, [],
}
use neokit.Fiberauth.{Gate, passed, refused, Answer}
use neokit.Fiberauth.Middleware.{
  SessionView, require_owner, require_auth, require_configured, stops, guard, current_id, owned,
  view_of, list_sessions, revoke_session,
}
use neokit.Oidcauth.Provider.{Upstream, Provider}
use neokit.Session.{Identity, Session}
use neokit.Session.Store.{Store}
use neokit.Text.{Text}

-- A login is configured and the request is an owner's.
abbrev pub Owned : Bool → Option Identity → Type 0
Owned enabled who = (enabled ≡ true) × ((id : Identity) × (who ≡ some id) × (id.owner ≡ true))

guard-Owned :
    (enabled : Bool) (who : Option Identity) → stops (guard enabled who) ≡ false → Owned enabled who
unfolding guard require_configured require_owner
guard-Owned enabled none h = ground (arith, h)
guard-Owned enabled (some id) h = (ground (arith, h), (id, refl, ground (arith, h)))

-- The guards nest: whom RequireOwner passes RequireAuth passes, on every deployment; with no login
-- configured both pass everyone, while the session routes answer 404 to everyone. With one, an
-- anonymous request is answered 401 by all three, and a signed-in one that is no owner's is answered
-- 403 by RequireOwner and by the session routes but passes RequireAuth.
pub guards_nest :
    (who : Option Identity)
    → ((enabled : Bool) → require_owner enabled who ≡ passed → require_auth enabled who ≡ passed)
      × (require_owner false who ≡ passed)
      × (guard false who ≡ refused 404)
      × (who ≡ none
          → (require_owner true who ≡ refused 401)
            × (require_auth true who ≡ refused 401)
            × (guard true who ≡ refused 401))
      × ((id : Identity)
          → who ≡ some id
          → id.owner ≡ false
          → (require_owner true who ≡ refused 403)
            × (require_auth true who ≡ passed)
            × (guard true who ≡ refused 403))
unfolding guard require_configured require_owner require_auth
guards_nest none = (
  λ enabled h. ground (arith, h),
  refl,
  refl,
  λ h. (refl, refl, refl),
  λ id h k. ground (arith, h),
)
guards_nest (some id) = (
  λ enabled h. ground (arith, h),
  refl,
  refl,
  λ h. ground (arith, h),
  λ id' h k. ground (arith, h, k),
)

-- What a row of the list says of a session: its id and the owner mark.
abbrev pub row_of_view : SessionView → String × Bool
row_of_view v = (v.id, v.owner)

abbrev pub row_of_session : (List Text → Bool) → Session → String × Bool
row_of_session owns s = (s.id, owns s.groups)

module _ {W M R : Type 0} (up : Upstream W M) (hash_token : Text → String) (g : Gate)
    (store : Store R) where
  revoked :
      (id : String) (enabled : Bool) (who : Option Identity) (r : R)
      → ((revoke_session up hash_token g store id enabled who r).0 ≡ r) ⊎ Owned enabled who
  unfolding revoke_session
  revoked id enabled who r = elim (Bool-cases (stops (guard enabled who))) [
    | inl e ↦ inl (ground (arith, e))
    | inr e ↦ inr (guard-Owned enabled who e)
  ]

  listed :
      (cookies : Text → Text) (provider : Option (Provider M)) (who : Option Identity) (r : R)
      (views : List SessionView)
      → list_sessions up hash_token g store cookies provider who r ≡ inr views
      → Owned (is_some provider) who
        × ((list : List Session) × (store.list_sessions r ≡ some list)
            × (map row_of_view views
                ≡ map (row_of_session (owned up hash_token g store provider)) list))
  unfolding list_sessions
  listed cookies provider who r views h = elim (Bool-cases (stops (guard (is_some provider) who))) [
    | inl e ↦ ground (arith, h, e)
    | inr e ↦ (guard-Owned (is_some provider) who e, step (store.list_sessions r) refl e)
  ]
    where
      shown :
          (current : String) (list : List Session)
          → map row_of_view (map (view_of up hash_token g store provider current) list)
            ≡ map (row_of_session (owned up hash_token g store provider)) list
      shown current [] = refl
      shown current (s ∷ list) =
          ap (λ rows. (s.id, owned up hash_token g store provider s.groups) ∷ rows)
            (shown current list)

      current : String
      current = current_id up hash_token g store cookies provider r

      step :
          (o : Option (List Session))
          → store.list_sessions r ≡ o
          → stops (guard (is_some provider) who) ≡ false
          → ((list : List Session) × (store.list_sessions r ≡ some list)
              × (map row_of_view views
                  ≡ map (row_of_session (owned up hash_token g store provider)) list))
      step none k e = ground (arith, h, k, e)
      step (some list) k e =
          (list, k, ap (map row_of_view) (ground (arith, h, k, e)) ∙ shown current list)

  Listing : (Text → Text) → Option (Provider M) → Option Identity → R → Type 0
  Listing cookies provider who r =
      ((a : Answer) × (list_sessions up hash_token g store cookies provider who r ≡ inl a))
      ⊎ ((views : List SessionView) × (list : List Session) × (list_sessions up hash_token g store
              cookies provider who r
            ≡ inr views)
          × Owned (is_some provider) who
          × (store.list_sessions r ≡ some list)
          × (map row_of_view views
              ≡ map (row_of_session (owned up hash_token g store provider)) list))

  listing :
      (cookies : Text → Text) (provider : Option (Provider M)) (who : Option Identity) (r : R)
      → Listing cookies provider who r
  unfolding Listing
  listing cookies provider who r =
      step (list_sessions up hash_token g store cookies provider who r) refl
    where
      step :
          (out : Answer ⊎ List SessionView)
          → list_sessions up hash_token g store cookies provider who r ≡ out
          → Listing cookies provider who r
      step (inl a) e = inl (a, e)
      step (inr views) e =
          let (a, (list, b, c)) = listed cookies provider who r views e in
          inr (views, list, e, a, b, c)

  -- The session routes serve an owner only: unless a login is configured and the request's identity is
  -- an owner's, no list is answered and a revocation leaves the store as it was. The list has one view
  -- for each session of the store in its order, whose owner mark is the guard's own rule on the
  -- session's groups rather than the mark stored at its sign-in.
  pub session_routes-Owned :
      (cookies : Text → Text) (provider : Option (Provider M)) (who : Option Identity) (r : R)
      (id : String) (enabled : Bool)
      → (((a : Answer) × (list_sessions up hash_token g store cookies provider who r ≡ inl a))
          ⊎ ((views : List SessionView) × (list : List Session) × (list_sessions up hash_token g
                  store cookies provider who r
                ≡ inr views)
              × Owned (is_some provider) who
              × (store.list_sessions r ≡ some list)
              × (map row_of_view views
                  ≡ map (row_of_session (owned up hash_token g store provider)) list)))
        × (((revoke_session up hash_token g store id enabled who r).0 ≡ r) ⊎ Owned enabled who)
  unfolding Listing
  session_routes-Owned cookies provider who r id enabled =
      (listing cookies provider who r, revoked id enabled who r)
