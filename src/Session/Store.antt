-- ===== src/Session/Store.antt =====
-- session.Store (session/session.go): what a gate asks of a store of sessions. A state `R` is passed
-- from call to call; `false` and an outer `none` are the errors of the store. The interface names
-- no laws; those here are what the gate relies on, and the SQLite store fills them: a created session
-- is found under its token's hash, for the same identity and with its instants cut by less than a
-- second; a deleted token finds nothing, and deleting another does not bring it back.
use neokit.Base.{◌≤ℤ◌, ◌<ℤ◌, pos, String, Bool, Option, List, ◌≡◌, true, some, none}
use neokit.Clock.{Instant, add, second}
use neokit.Session.{Session, identity}

-- The first instant is the second one cut by less than a second.
abbrev pub Cut : Instant → Instant → Type 0
Cut a b = (a ≤ℤ b) × (b <ℤ add a (pos second))

pub record Store (R : Type 0) : Type 0 where
  pub create_session : Session → String → R → R × Bool
  pub session_by_token : String → R → Option (Option Session)
  pub touch_session : String → Instant → Instant → R → R × Bool
  pub delete_session : String → R → R × Bool
  pub delete_session_by_token : String → R → R × Bool
  pub list_sessions : R → Option (List Session)
  pub kept : Session → Session
  pub identity-kept : (s : Session) → identity (kept s) ≡ identity s
  pub created_at-kept : (s : Session) → Cut (kept s).created_at s.created_at
  pub expires_at-kept : (s : Session) → Cut (kept s).expires_at s.expires_at
  pub session_by_token-create_session :
      (s : Session) (h : String) (r r' : R)
      → create_session s h r ≡ (r', true)
      → session_by_token h r' ≡ some (some (kept s))
  pub session_by_token-delete_session_by_token :
      (h : String) (r r' : R)
      → delete_session_by_token h r ≡ (r', true)
      → session_by_token h r' ≡ some none
  pub session_by_token-delete_other :
      (h h' : String) (r : R)
      → session_by_token h r ≡ some none
      → session_by_token h (delete_session_by_token h' r).0 ≡ some none
