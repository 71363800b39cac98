-- ===== src/Session.antt =====
-- The session package's vocabulary and lifetime rules (session/session.go, session/policy.go).
pub mod Policy
pub mod Store
pub mod Sqlite
use neokit.Base.{List, Bool, String}
use neokit.Clock.{Instant}
use neokit.Text.{Text}

-- The authenticated principal; an empty subject means that nobody is.
pub record Identity : Type 0 where
  pub subject : Text
  pub name : Text
  pub email : Text
  pub groups : List Text
  pub owner : Bool

pub record Session : Type 0 where
  pub id : String
  pub subject : Text
  pub name : Text
  pub email : Text
  pub groups : List Text
  pub owner : Bool
  pub user_agent : Text
  pub created_at : Instant
  pub last_seen_at : Instant
  pub expires_at : Instant

-- Session.Identity
unfoldable pub identity : Session → Identity
identity s = record {
  subject = s.subject;
  name = s.name;
  email = s.email;
  groups = s.groups;
  owner = s.owner;
}
