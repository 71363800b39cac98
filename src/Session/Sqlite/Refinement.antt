-- ===== src/Session/Sqlite/Refinement.antt =====
-- The table of sessions as what it promises (session/session.go, session/sqlite.go): a view gives the
-- session of a token's hash. It forgets the rows, their order and their columns.
use neokit.Base.{
  List, String, if◌then◌else◌, Bool, Option, string_eq, ◌≡◌, ◌∷◌, [], ap, some, true, none, refl,
  ◌∙◌, ◌≢◌, false, Bool-cases, inl, subst, inr, arith,
}
use neokit.Clock.{Instant, after}
use neokit.Session.{Session}
use neokit.Session.Sqlite.{
  Json, Row, create_session, session_by_token, touch_session, delete_session,
  delete_session_by_token, delete_expired_sessions,
}
use neokit.Session.Sqlite.Answers.{
  to_second, session_by_token-create_session, session_by_token-touch_session,
  session_by_token-delete_session, session_by_token-delete_expired_sessions,
}
use neokit.Session.Sqlite.Rows.{Reach, creates, touches, deletes, signs_out, sweeps}
use neokit.Session.Sqlite.Stored.{kept}

pub data Op : Type 0 where
  create : Session → String → Op
  touch : String → Instant → Instant → Op
  revoke : String → Op
  sign_out : String → Op
  sweep : Instant → Op

-- What an operation leaves in the table, and whether it was carried out.
abbrev pub perform : Json → Op → List Row → List Row × Bool
perform json (create s h) rows = create_session json s h rows
perform json (touch id seen expires) rows = (touch_session id seen expires rows, true)
perform json (revoke id) rows = (delete_session id rows, true)
perform json (sign_out h) rows = (delete_session_by_token h rows, true)
perform json (sweep now) rows = ((delete_expired_sessions now rows).0, true)

abbrev pub View : Type 0
View = String → Option Session

-- What an operation that is carried out means for the session of a token's hash.
abbrev pub meaning : Op → View → View
meaning (create s h) v h' = if string_eq.beq h h' then some (kept s) else v h'
meaning (touch id seen expires) v h' = elim (v h') [
  | none ↦ none
  | some s ↦ some (
      if string_eq.beq s.id id
      then record s { last_seen_at = to_second seen; expires_at = to_second expires }
      else s)
]
meaning (revoke id) v h' = elim (v h') [
  | none ↦ none
  | some s ↦ if string_eq.beq s.id id then none else some s
]
meaning (sign_out h) v h' = if string_eq.beq h h' then none else v h'
meaning (sweep now) v h' = elim (v h') [
  | none ↦ none
  | some s ↦ if after s.expires_at now then some s else none
]

abbrev pub view : Json → List Row → View
view json rows h = session_by_token json h rows

-- The table after some operations, and those that were carried out.
abbrev pub perform_all : Json → List Op → List Row → List Row × List Op
perform_all json [] rows = (rows, [])
perform_all json (op ∷ ops) rows =
    let (rows', ok) = perform json op rows in
    let (rows'', done) = perform_all json ops rows' in (rows'', if ok then op ∷ done else done)

abbrev pub meaning_all : List Op → View → View
meaning_all [] v = v
meaning_all (op ∷ ops) v = meaning_all ops (meaning op v)

perform-Reach :
    (json : Json) (op : Op) {rows : List Row}
    → Reach json rows
    → Reach json (perform json op rows).0
perform-Reach json (create s h) r = creates s h r
perform-Reach json (touch id seen expires) r = touches id seen expires r
perform-Reach json (revoke id) r = deletes id r
perform-Reach json (sign_out h) r = signs_out h r
perform-Reach json (sweep now) r = sweeps now r

-- One operation that is carried out means what it means, and one that is not changes nothing.
perform-meaning :
    (json : Json) (op : Op) (h : String) {rows : List Row}
    → Reach json rows
    → let (rows', ok) = perform json op rows in
      view json rows' h ≡ (if ok then meaning op (view json rows) h else view json rows h)
perform-meaning json (create s k) h {rows} r =
    let (found, others, refused) = session_by_token-create_session json s k h rows in
    step (create_session json s k rows).1 refl found others refused
  where
    step :
        (ok : Bool)
        → (create_session json s k rows).1 ≡ ok
        → ((create_session json s k rows).1 ≡ true
            → view json (create_session json s k rows).0 k ≡ some (kept s))
        → (k ≢ h → view json (create_session json s k rows).0 h ≡ view json rows h)
        → ((create_session json s k rows).1 ≡ false → (create_session json s k rows).0 ≡ rows)
        → view json (create_session json s k rows).0 h ≡ (
            if (create_session json s k rows).1
            then (if string_eq.beq k h then some (kept s) else view json rows h)
            else view json rows h)
    step false e found others refused = rw e (ap (λ t. view json t h) (refused e))
    step true e found others refused = rw e (elim (Bool-cases (string_eq.beq k h)) [
      | inl b ↦ rw b (
          subst (λ t. view json (create_session json s k rows).0 t ≡ some (kept s))
            ((string_eq.beq_iff k h).0 b) (found e))
      | inr b ↦ rw b (others (λ q. ground (arith, b, string_eq.beq_iff k h, q)))
    ])
perform-meaning json (touch id seen expires) h {rows} r =
    session_by_token-touch_session json id h seen expires rows
perform-meaning json (revoke id) h r = (session_by_token-delete_session json id h h r).0
perform-meaning json (sign_out k) h r = (session_by_token-delete_session json "" k h r).1
perform-meaning json (sweep now) h r = (session_by_token-delete_expired_sessions json now h r).0

meaning_all_agree :
    (ops : List Op) (v v' : View)
    → ((h : String) → v h ≡ v' h)
    → (h : String) → meaning_all ops v h ≡ meaning_all ops v' h
meaning_all_agree [] v v' e h = e h
meaning_all_agree (op ∷ ops) v v' e h =
    meaning_all_agree ops (meaning op v) (meaning op v') (agree op) h
  where
    agree : (op : Op) (h : String) → meaning op v h ≡ meaning op v' h
    agree (create s k) h = ap (λ o. if string_eq.beq k h then some (kept s) else o) (e h)
    agree (touch id seen expires) h = rw (meaning, e h) refl
    agree (revoke id) h = rw (meaning, e h) refl
    agree (sign_out k) h = ap (λ o. if string_eq.beq k h then none else o) (e h)
    agree (sweep now) h = rw (meaning, e h) refl

-- From any reachable table, a run of operations of the store answers every token's hash as the
-- meanings of those that were carried out do, in their order; those refused change no answer.
pub perform_all-meaning_all :
    (json : Json) (ops : List Op) (h : String) {rows : List Row}
    → Reach json rows
    → let (rows', done) = perform_all json ops rows in
      view json rows' h ≡ meaning_all done (view json rows) h
perform_all-meaning_all json [] h r = refl
perform_all-meaning_all json (op ∷ ops) h {rows} r =
    perform_all-meaning_all json ops h (perform-Reach json op r)
    ∙ step (perform json op rows).1 refl
  where
    rest : List Op
    rest = (perform_all json ops (perform json op rows).0).1

    step :
        (ok : Bool)
        → (perform json op rows).1 ≡ ok
        → meaning_all rest (view json (perform json op rows).0) h
          ≡ meaning_all (if (perform json op rows).1 then op ∷ rest else rest) (view json rows) h
    step true e = rw e (
        meaning_all_agree rest (view json (perform json op rows).0) (meaning op (view json rows))
          (λ k.
            perform-meaning json op k r
            ∙ ap (λ b. if b then meaning op (view json rows) k else view json rows k) e)
          h)
    step false e = rw e (
        meaning_all_agree rest (view json (perform json op rows).0) (view json rows)
          (λ k.
            perform-meaning json op k r
            ∙ ap (λ b. if b then meaning op (view json rows) k else view json rows k) e)
          h)
