-- ===== src/Fiberauth/Middleware.antt =====
-- Recognising a signed-in browser and guarding routes (oidcauth/fiberauth/middleware.go,
-- oidcauth/fiberauth/sessions.go). Whoami and the session list answer the views that they serialise;
-- the instants of a view are the session's.
pub mod Guards
pub mod Resolving
use neokit.Base.{
  Bool, String, Option, false, if◌then◌else◌, List, none, not, some, true, ◌⊎◌, is_some, inl, inr,
  map, string_eq,
}
use neokit.Clock.{Instant}
use neokit.Fiberauth.{Gate, Answer, no_content, passed, refused, session_cookie_name, login_path}
use neokit.Oidcauth.{blank, Config}
use neokit.Oidcauth.Provider.{Upstream, Provider, cookie_secure, is_owner}
use neokit.Session.{Identity, Session, identity}
use neokit.Session.Policy.{expiry_for, live, needs_touch}
use neokit.Session.Store.{Store}
use neokit.Text.{Text}

-- WhoamiView; without an identity only the first three fields are present.
pub record WhoamiView : Type 0 where
  pub sso_enabled : Bool
  pub login_url : Text
  pub who : Option Identity

-- SessionView
pub record SessionView : Type 0 where
  pub id : String
  pub name : Text
  pub email : Text
  pub owner : Bool
  pub user_agent : Text
  pub created_at : Instant
  pub last_seen_at : Instant
  pub current : Bool

-- RequireOwner, on whether a login is configured and the identity of the request.
unfoldable pub require_owner : Bool → Option Identity → Answer
require_owner enabled who = elim who [
  | none ↦ if not enabled then passed else refused 401
  | some id ↦ if not enabled then passed else if not id.owner then refused 403 else passed
]

-- RequireAuth
unfoldable pub require_auth : Bool → Option Identity → Answer
require_auth enabled who =
    if not enabled then passed else if is_some who then passed else refused 401

-- requireConfigured
unfoldable pub require_configured : Bool → Answer
require_configured enabled = if not enabled then refused 404 else passed

-- The handlers that register mounts on the session routes before the last one.
abbrev pub stops : Answer → Bool
stops passed = false
stops _ = true

unfoldable pub guard : Bool → Option Identity → Answer
unfolding require_configured require_owner
guard enabled who =
    let first = require_configured enabled in
    if stops first then first else require_owner enabled who

-- Whoami
unfoldable pub whoami : Gate → Bool → Option Identity → WhoamiView
whoami g enabled who = record { sso_enabled = enabled; login_url = login_path g; who = who }

module _ {W M R : Type 0} (up : Upstream W M) (hash_token : Text → String) (g : Gate) where
  module _ (sessions : Option (Store R)) where
    -- resolveSession
    unfoldable pub resolve_session : Instant → (Text → Text) → Provider M → R → R × Option Identity
    resolve_session now cookies p r = elim sessions [
      | none ↦ (r, none)
      | some store ↦
          let token = cookies (session_cookie_name g (cookie_secure up p)) in
          elim (store.session_by_token (hash_token token) r) [
            | none ↦ (r, none)
            | some none ↦ (r, none)
            | some (some sess) ↦
                let expires = expiry_for g.policy sess.created_at now in
                let r' = (store.touch_session sess.id now expires r).0 in
                let id = record (identity sess) { owner = is_owner up p.cfg sess.groups } in
                if blank token
                then (r, none)
                else if not (live g.policy sess now)
                then (r, none)
                else (if needs_touch g.policy sess now then r' else r, some id)
          ]
    ]

    -- ResolveIdentity
    unfoldable pub resolve_identity :
        Instant → (Text → Text) → Option (Provider M) → R → R × Option Identity
    resolve_identity now cookies none r = (r, none)
    resolve_identity now cookies (some p) r = resolve_session now cookies p r

  module _ (store : Store R) where
    abbrev found_id : Option (Option Session) → String
    found_id none = ""
    found_id (some none) = ""
    found_id (some (some s)) = s.id

    -- The id of the caller's own session, or the empty text.
    unfoldable pub current_id : (Text → Text) → Option (Provider M) → R → String
    current_id cookies none r = ""
    current_id cookies (some p) r =
        let token = cookies (session_cookie_name g (cookie_secure up p)) in
        if blank token then "" else found_id (store.session_by_token (hash_token token) r)

    abbrev pub owned : Option (Provider M) → List Text → Bool
    owned none groups = false
    owned (some p) groups = is_owner up p.cfg groups

    abbrev pub view_of : Option (Provider M) → String → Session → SessionView
    view_of provider current s = record {
      id = s.id;
      name = s.name;
      email = s.email;
      owner = owned provider s.groups;
      user_agent = s.user_agent;
      created_at = s.created_at;
      last_seen_at = s.last_seen_at;
      current = string_eq.beq s.id current;
    }

    -- listSessions, behind its guards; an answer is given when there is no list.
    unfoldable pub list_sessions :
        (Text → Text) → Option (Provider M) → Option Identity → R → Answer ⊎ List SessionView
    list_sessions cookies provider who r =
        let current = current_id cookies provider r in
        let verdict = guard (is_some provider) who in
        if stops verdict then inl verdict else elim (store.list_sessions r) [
          | none ↦ inl (refused 500)
          | some list ↦ inr (map (view_of provider current) list)
        ]

    -- revokeSession, behind its guards.
    unfoldable pub revoke_session : String → Bool → Option Identity → R → R × Answer
    revoke_session id enabled who r =
        let verdict = guard enabled who in
        let (r', ok) = store.delete_session id r in
        if stops verdict
        then (r, verdict)
        else if not ok
        then (r', refused 500)
        else (r', no_content)
