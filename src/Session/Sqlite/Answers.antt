-- ===== src/Session/Sqlite/Answers.antt =====
-- Which session a token hash is answered with after a write (session/sqlite.go).
use neokit.Base.{
  ◌≡◌, ◌≢◌, true, false, not, String, string_eq, same_refl, List, [], ◌∷◌, none, some,
  if◌then◌else◌, arith, refl, Option-cases, inl, inr,
}
use neokit.Clock.{Instant, zero_time, after}
use neokit.Session.{Session}
use neokit.Session.Policy.{Policy, live}
use neokit.Session.Sqlite.{
  Json, stamp, parse, Row, create_session, row_by_token, session_by_token, touch_session,
  delete_session, delete_session_by_token, delete_expired_sessions, spent,
}
use neokit.Session.Sqlite.Rows.{Reach, Reach-Keyed, row_by_token-keep, spent_iff}

-- What the table keeps of an instant.
abbrev pub to_second : Instant → Instant
to_second t = parse (stamp t)

-- A session that the database took is found by its token hash, with its instants cut to the
-- second; every other token hash is answered as before. One that it did not take changes nothing.
pub session_by_token-create_session :
    (json : Json) (s : Session) (h h' : String) (rows : List Row)
    → let (rows', ok) = create_session json s h rows in
      (ok ≡ true
        → session_by_token json h rows'
          ≡ some (record s {
            created_at = to_second s.created_at;
            last_seen_at = to_second s.last_seen_at;
            expires_at = to_second s.expires_at;
          }))
      × (h ≢ h' → session_by_token json h' rows' ≡ session_by_token json h' rows)
      × (ok ≡ false → rows' ≡ rows)
unfolding create_session session_by_token
session_by_token-create_session json s h h' rows = (
  λ e. ground (arith, json.decode-encode s.groups, same_refl h),
  λ e. ground (arith, string_eq.beq_iff h h'),
  λ e. ground arith,
)

found_hash :
    (h : String) (rows : List Row) (r : Row) → row_by_token h rows ≡ some r → r.token_hash ≡ h
unfolding row_by_token
found_hash h [] r e = ground arith
found_hash h (t ∷ rows) r e = ground (arith, found_hash h rows r, string_eq.beq_iff t.token_hash h)

same_string : (a b c : String) → a ≡ c → string_eq.beq a b ≡ string_eq.beq b c
same_string a b c e = ground (arith, string_eq.beq_iff a b, string_eq.beq_iff b c)

-- In every reachable table a revoked session is found by no token hash, the token hash of a
-- sign-out finds nothing, and all other sessions are found as before.
pub session_by_token-delete_session :
    (json : Json) (id h h' : String) {rows : List Row}
    → Reach json rows
    → (session_by_token json h (delete_session id rows) ≡ elim (session_by_token json h rows) [
      | none ↦ none
      | some s ↦ if string_eq.beq s.id id then none else some s
    ])
      × (session_by_token json h' (delete_session_by_token h rows)
          ≡ (if string_eq.beq h h' then none else session_by_token json h' rows))
unfolding session_by_token delete_session delete_session_by_token
session_by_token-delete_session json id h h' {rows} r =
    let d = (Reach-Keyed r).1 in
    let kept = row_by_token-keep (λ t. not (string_eq.beq t.token_hash h)) h' rows d in
    (
      ground (arith, row_by_token-keep (λ t. not (string_eq.beq t.id id)) h rows d),
      elim (Option-cases (row_by_token h' rows)) [
        | inl e ↦ ground (arith, e, kept)
        | inr (t, e) ↦
            ground (arith, e, kept, same_string t.token_hash h h' (found_hash h' rows t e))
      ],
    )

-- In every reachable table a sweep removes exactly the sessions whose expiry, as it is read back,
-- has come; so that a session that still authenticates, and whose expiry is recorded, is found
-- after the sweep as before it.
pub session_by_token-delete_expired_sessions :
    (json : Json) (now : Instant) (h : String) {rows : List Row}
    → Reach json rows
    → let swept = (delete_expired_sessions now rows).0 in
      (session_by_token json h swept ≡ elim (session_by_token json h rows) [
        | none ↦ none
        | some s ↦ if after s.expires_at now then some s else none
      ])
      × ((p : Policy) (s : Session)
          → session_by_token json h rows ≡ some s
          → live p s now ≡ true
          → s.expires_at ≢ zero_time
          → session_by_token json h swept ≡ some s)
unfolding session_by_token delete_expired_sessions live
session_by_token-delete_expired_sessions json now h {rows} r =
    (answers, λ p s e l z. rw (answers, e) (ground (arith, unspent p s l z)))
  where
    answers :
        session_by_token json h (delete_expired_sessions now rows).0
        ≡ elim (session_by_token json h rows) [
          | none ↦ none
          | some s ↦ if after s.expires_at now then some s else none
        ]
    answers =
        let kept = row_by_token-keep (λ t. not (spent now t)) h rows (Reach-Keyed r).1 in
        elim (Option-cases (row_by_token h rows)) [
          | inl e ↦ ground (arith, e, kept)
          | inr (t, e) ↦ ground (arith, e, kept, spent_iff t.expires_at now)
        ]

    unspent :
        (p : Policy) (s : Session)
        → live p s now ≡ true
        → s.expires_at ≢ zero_time
        → after s.expires_at now ≡ true
    unspent p s l z = ground arith

-- In any table a touch renews the session of its id, to the second, and no other.
pub session_by_token-touch_session :
    (json : Json) (id h : String) (last_seen expires : Instant) (rows : List Row)
    → session_by_token json h (touch_session id last_seen expires rows)
      ≡ elim (session_by_token json h rows) [
        | none ↦ none
        | some s ↦ some (
            if string_eq.beq s.id id
            then record s { last_seen_at = to_second last_seen; expires_at = to_second expires }
            else s)
      ]
unfolding session_by_token touch_session
session_by_token-touch_session json id h a b [] = refl
session_by_token-touch_session json id h a b (r ∷ rows) =
    ground (arith, session_by_token-touch_session json id h a b rows)
