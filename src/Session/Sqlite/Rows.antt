-- ===== src/Session/Sqlite/Rows.antt =====
-- What the store answers after its writes (session/sqlite.go).
use neokit.Base.{
  ◌≡◌, ◌↔◌, ◌≤ℤ◌, leb_ℤ, Bool, true, false, String, string_eq, List, [], ◌∷◌, Option, none, some,
  if◌then◌else◌, keep, map, Distinct, contains, arith, refl, Bool-cases, inl, inr, ℤ,
}
use neokit.Clock.{Instant}
use neokit.Session.{Session}
use neokit.Session.Sqlite.{
  Json, stamp, parse, Row, create_session, row_by_token, touched, touch_session, delete_session,
  delete_session_by_token, delete_expired_sessions, taken,
}

-- An expiry is spent at `now` by its seconds exactly when the instant read back has come.
pub spent_iff : (e : ℤ) (now : Instant) → (leb_ℤ e (stamp now) ≡ true) ↔ (parse e ≤ℤ now)
unfolding stamp parse
spent_iff e now = (λ h. ground arith, λ h. ground arith)

absent :
    (token_hash : String) (rows : List Row)
    → contains (map (λ r. r.token_hash) rows) token_hash ≡ false
    → row_by_token token_hash rows ≡ none
unfolding row_by_token
absent token_hash [] h = refl
absent token_hash (r ∷ rows) h = ground (arith, absent token_hash rows)

abbrev filtered : (Row → Bool) → Option Row → Option Row
filtered p none = none
filtered p (some r) = if p r then some r else none

-- A lookup among the rows that stay finds what it found before, if that stays.
pub row_by_token-keep :
    (p : Row → Bool) (token_hash : String) (rows : List Row)
    → Distinct (map (λ r. r.token_hash) rows)
    → row_by_token token_hash (keep p rows) ≡ filtered p (row_by_token token_hash rows)
unfolding row_by_token
row_by_token-keep p token_hash [] d = refl
row_by_token-keep p token_hash (r ∷ rows) d =
    elim (Bool-cases (string_eq.beq r.token_hash token_hash)) [
      | inl e ↦ ground (
        arith,
        e,
        row_by_token-keep p token_hash rows d.1,
        absent token_hash rows,
        d.0,
        (string_eq.beq_iff r.token_hash token_hash).0 e,
      )
      | inr e ↦ ground (arith, e, row_by_token-keep p token_hash rows d.1)
    ]

-- The rows have ids and token hashes of their own.
abbrev pub Keyed : List Row → Type 0
Keyed rows = Distinct (map (λ r. r.id) rows) × Distinct (map (λ r. r.token_hash) rows)

keep-absent :
    (f : Row → String) (p : Row → Bool) (k : String) (rows : List Row)
    → contains (map f rows) k ≡ false
    → contains (map f (keep p rows)) k ≡ false
keep-absent f p k [] h = refl
keep-absent f p k (r ∷ rows) h = ground (arith, keep-absent f p k rows)

keep-Distinct :
    (f : Row → String) (p : Row → Bool) (rows : List Row)
    → Distinct (map f rows)
    → Distinct (map f (keep p rows))
keep-Distinct f p [] d = tt
keep-Distinct f p (r ∷ rows) d = elim (Bool-cases (p r)) [
  | inl e ↦ rw e (keep-absent f p (f r) rows d.0, keep-Distinct f p rows d.1)
  | inr e ↦ rw e (keep-Distinct f p rows d.1)
]

free :
    (id token_hash : String) (rows : List Row)
    → taken id token_hash rows ≡ false
    → (contains (map (λ r. r.id) rows) id ≡ false)
      × (contains (map (λ r. r.token_hash) rows) token_hash ≡ false)
free id token_hash [] h = (refl, refl)
free id token_hash (r ∷ rows) h = ground (arith, free id token_hash rows)

touched_keys :
    (id : String) (a b : Instant) (rows : List Row)
    → (map (λ r. r.id) (map (touched id a b) rows) ≡ map (λ r. r.id) rows)
      × (map (λ r. r.token_hash) (map (touched id a b) rows) ≡ map (λ r. r.token_hash) rows)
touched_keys id a b [] = (refl, refl)
touched_keys id a b (r ∷ rows) = ground (arith, touched_keys id a b rows)

-- The statements on the table, in any order.
pub data Reach (json : Json) : List Row → Type 0 where
  start : Reach json []
  creates :
      {rows : List Row} (s : Session) (token_hash : String)
      → Reach json rows
      → Reach json (create_session json s token_hash rows).0
  touches :
      {rows : List Row} (id : String) (last_seen expires : Instant)
      → Reach json rows
      → Reach json (touch_session id last_seen expires rows)
  deletes : {rows : List Row} (id : String) → Reach json rows → Reach json (delete_session id rows)
  signs_out :
      {rows : List Row} (token_hash : String)
      → Reach json rows
      → Reach json (delete_session_by_token token_hash rows)
  sweeps :
      {rows : List Row} (now : Instant)
      → Reach json rows
      → Reach json (delete_expired_sessions now rows).0

create_session-Keyed :
    (json : Json) (s : Session) (token_hash : String) (rows : List Row)
    → Keyed rows
    → Keyed (create_session json s token_hash rows).0
unfolding create_session
create_session-Keyed json s token_hash rows k = elim (Bool-cases (taken s.id token_hash rows)) [
  | inl e ↦ rw e k
  | inr e ↦
      let (new_id, new_hash) = free s.id token_hash rows e in rw e ((new_id, k.0), (new_hash, k.1))
]

pub Reach-Keyed : {json : Json} {rows : List Row} → Reach json rows → Keyed rows
unfolding create_session touch_session delete_session delete_session_by_token
    delete_expired_sessions
Reach-Keyed start = (tt, tt)
Reach-Keyed {json} (creates {rows} s token_hash r) =
    create_session-Keyed json s token_hash rows (Reach-Keyed r)
Reach-Keyed (touches {rows} id a b r) =
    let (ids, hashes) = touched_keys id a b rows in rw (ids, hashes) (Reach-Keyed r)
Reach-Keyed (deletes id r) =
    let k = Reach-Keyed r in (keep-Distinct _ _ _ k.0, keep-Distinct _ _ _ k.1)
Reach-Keyed (signs_out h r) =
    let k = Reach-Keyed r in (keep-Distinct _ _ _ k.0, keep-Distinct _ _ _ k.1)
Reach-Keyed (sweeps now r) =
    let k = Reach-Keyed r in (keep-Distinct _ _ _ k.0, keep-Distinct _ _ _ k.1)
