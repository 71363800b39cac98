-- ===== src/Session/Sqlite/Stored.antt =====
-- The SQLite store as a session.Store (session/sqlite.go, session/session.go). The driver's failures
-- are left out, so only a creation can fail.
use neokit.Base.{
  List, String, some, ◌≡◌, none, true, ◌∷◌, arith, [], refl, ap, subst, pos, negsuc, +ℤ_parts, ◌/◌,
  ◌*◌, suc, ◌-◌,
}
use neokit.Clock.{Instant, second}
use neokit.Session.{Session, identity}
use neokit.Session.Sqlite.{
  Json, Row, stamp, parse, create_session, row_by_token, session_by_token, touch_session,
  delete_session, delete_session_by_token, list_sessions,
}
use neokit.Session.Sqlite.Answers.{to_second, session_by_token-create_session as created_is_found}
use neokit.Session.Store.{Store, Cut}

-- What the table keeps of a session.
abbrev pub kept : Session → Session
kept s = record s {
  created_at = to_second s.created_at;
  last_seen_at = to_second s.last_seen_at;
  expires_at = to_second s.expires_at;
}

pub deleted_is_gone :
    (json : Json) (h : String) (rows : List Row)
    → session_by_token json h (delete_session_by_token h rows) ≡ none
unfolding session_by_token row_by_token delete_session_by_token
deleted_is_gone json h [] = refl
deleted_is_gone json h (r ∷ rows) = ground (arith, deleted_is_gone json h rows)

stays_gone :
    (json : Json) (h h' : String) (rows : List Row)
    → session_by_token json h rows ≡ none
    → session_by_token json h (delete_session_by_token h' rows) ≡ none
unfolding session_by_token row_by_token delete_session_by_token
stays_gone json h h' [] e = refl
stays_gone json h h' (r ∷ rows) e = ground (arith, e, stays_gone json h h' rows)

pub created_found :
    (json : Json) (s : Session) (h : String) (rows rows' : List Row)
    → create_session json s h rows ≡ (rows', true)
    → session_by_token json h rows' ≡ some (kept s)
created_found json s h rows rows' e =
    subst (λ out. out.1 ≡ true → session_by_token json h out.0 ≡ some (kept s)) e
      (created_is_found json s h h rows).0 refl

pub still_gone :
    (json : Json) (h h' : String) (rows : List Row)
    → some (session_by_token json h rows) ≡ some none
    → some (session_by_token json h (delete_session_by_token h' rows)) ≡ some none
still_gone json h h' rows e = ap some (stays_gone json h h' rows (ground (arith, e)))

pub to_second-Cut : (t : Instant) → Cut (to_second t) t
unfolding stamp parse
to_second-Cut (pos n) =
    (ground arith, ground (arith, +ℤ_parts (pos (n / second * second)) (pos second)))
to_second-Cut (negsuc n) =
    (ground arith, ground (arith, +ℤ_parts (negsuc (suc (n / second) * second - 1)) (pos second)))

pub identity_kept : (s : Session) → identity (kept s) ≡ identity s
unfolding identity
identity_kept s = refl

unfoldable pub sqlite_store : Json → Store (List Row)
sqlite_store json = record {
  create_session = create_session json;
  session_by_token = λ h rows. some (session_by_token json h rows);
  touch_session = λ id seen expires rows. (touch_session id seen expires rows, true);
  delete_session = λ id rows. (delete_session id rows, true);
  delete_session_by_token = λ h rows. (delete_session_by_token h rows, true);
  list_sessions = λ rows. some (list_sessions json rows);
  kept = kept;
  identity-kept = identity_kept;
  created_at-kept = λ s. to_second-Cut s.created_at;
  expires_at-kept = λ s. to_second-Cut s.expires_at;
  session_by_token-create_session =
      λ s h rows rows' e. ap some (created_found json s h rows rows' e);
  session_by_token-delete_session_by_token = λ h rows rows' e.
      subst (λ out. some (session_by_token json h out.0) ≡ some none) e
        (ap some (deleted_is_gone json h rows));
  session_by_token-delete_other = λ h h' rows e. still_gone json h h' rows e;
}
