-- ===== src/Session/Sqlite.antt =====
-- session/sqlite.go: the store of sessions, as the rows of its table. The database is the list of
-- the rows that it holds; it refuses a row whose id or token hash is taken. The driver's own
-- failures change no row and are not modelled. An instant is kept to the second: its text has a
-- fixed width for the years 0 to 9999, so that texts compare as the numbers of seconds do. How the
-- groups are written is the parameter `Json`.
pub mod Rows
pub mod Answers
pub mod Stored
pub mod Refinement
use neokit.Base.{
  ℕ, ◌+◌, ◌-◌, ◌*◌, ◌/◌, ◌≡◌, suc, ℤ, pos, negsuc, leb_ℤ, Bool, true, false, not, ◌||◌, String,
  string_eq, same, List, [], ◌∷◌, ◌++◌, Option, none, some, if◌then◌else◌, any, keep, map, length,
}
use neokit.Clock.{Instant, second}
use neokit.Session.{Session}
use neokit.Text.{Text}

-- encoding/json on a list of texts.
pub record Json : Type 0 where
  pub encode : List Text → Text
  pub decode : Text → List Text
  pub decode-encode : (groups : List Text) → decode (encode groups) ≡ groups

-- stamp and parse: the seconds since the zero time.
unfoldable pub stamp : Instant → ℤ
stamp (pos n) = pos (n / second)
stamp (negsuc n) = negsuc (n / second)

unfoldable pub parse : ℤ → Instant
parse (pos n) = pos (n * second)
parse (negsuc n) = negsuc (suc n * second - 1)

-- The columns of auth_session.
pub record Row : Type 0 where
  pub id : String
  pub token_hash : String
  pub subject : Text
  pub name : Text
  pub email : Text
  pub groups_json : Text
  pub owner : Bool
  pub user_agent : Text
  pub created_at : ℤ
  pub last_seen_at : ℤ
  pub expires_at : ℤ

unfoldable pub scan : Json → Row → Session
unfolding parse
scan json r = record {
  id = r.id;
  subject = r.subject;
  name = r.name;
  email = r.email;
  groups = json.decode r.groups_json;
  owner = r.owner;
  user_agent = r.user_agent;
  created_at = parse r.created_at;
  last_seen_at = parse r.last_seen_at;
  expires_at = parse r.expires_at;
}

abbrev pub row_of : Json → Session → String → Row
row_of json s token_hash = record {
  id = s.id;
  token_hash = token_hash;
  subject = s.subject;
  name = s.name;
  email = s.email;
  groups_json = json.encode s.groups;
  owner = s.owner;
  user_agent = s.user_agent;
  created_at = stamp s.created_at;
  last_seen_at = stamp s.last_seen_at;
  expires_at = stamp s.expires_at;
}

-- Whether the id or the token hash is in the table.
abbrev pub taken : String → String → List Row → Bool
taken id token_hash rows =
    any (λ r. string_eq.beq r.id id || string_eq.beq r.token_hash token_hash) rows

-- CreateSession: whether the database took the row.
unfoldable pub create_session : Json → Session → String → List Row → List Row × Bool
unfolding stamp
create_session json s token_hash rows =
    if taken s.id token_hash rows then (rows, false) else (row_of json s token_hash ∷ rows, true)

-- The row that SessionByToken reads; a token hash stands in one row at most.
unfoldable pub row_by_token : String → List Row → Option Row
row_by_token token_hash [] = none
row_by_token token_hash (r ∷ rows) =
    let rest = row_by_token token_hash rows in
    if string_eq.beq r.token_hash token_hash then some r else rest

-- SessionByToken
unfoldable pub session_by_token : Json → String → List Row → Option Session
unfolding row_by_token scan
session_by_token json token_hash rows = elim (row_by_token token_hash rows) [
  | none ↦ none
  | some r ↦ some (scan json r)
]

abbrev pub touched : String → Instant → Instant → Row → Row
touched id last_seen expires r =
    if string_eq.beq r.id id
    then record r { last_seen_at = stamp last_seen; expires_at = stamp expires }
    else r

-- TouchSession
unfoldable pub touch_session : String → Instant → Instant → List Row → List Row
touch_session id last_seen expires rows = map (touched id last_seen expires) rows

-- DeleteSession
unfoldable pub delete_session : String → List Row → List Row
delete_session id rows = keep (λ r. not (string_eq.beq r.id id)) rows

-- DeleteSessionByToken
unfoldable pub delete_session_by_token : String → List Row → List Row
delete_session_by_token token_hash rows =
    keep (λ r. not (string_eq.beq r.token_hash token_hash)) rows

-- A row among those of a list that is sorted newest first.
unfoldable pub insert_newest : Row → List Row → List Row
insert_newest r [] = r ∷ []
insert_newest r (t ∷ rows) =
    let rest = insert_newest r rows in
    if leb_ℤ t.created_at r.created_at then r ∷ t ∷ rows else t ∷ rest

unfoldable pub newest_first : List Row → List Row
unfolding insert_newest
newest_first [] = []
newest_first (r ∷ rows) = insert_newest r (newest_first rows)

-- ListSessions; SQL leaves the order of rows created at the same second open.
unfoldable pub list_sessions : Json → List Row → List Session
unfolding newest_first
list_sessions json rows = map (scan json) (newest_first rows)

abbrev pub spent : Instant → Row → Bool
spent now r = leb_ℤ r.expires_at (stamp now)

-- DeleteExpiredSessions, with how many rows went.
unfoldable pub delete_expired_sessions : Instant → List Row → List Row × ℕ
delete_expired_sessions now rows =
    let left = keep (λ r. not (spent now r)) rows in (left, length rows - length left)
