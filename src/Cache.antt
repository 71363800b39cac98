-- ===== src/Cache.antt =====
-- cache/cache.go: an in-memory TTL cache with per-key single-flight and stale-while-revalidate.
-- Here are an entry and the critical sections that act on it; each runs under the entry's mutex,
-- so each is one function. `now` is what time.Now answers in that section. Values are stored as
-- `any`: how a type T goes into it and is asserted out of it is the parameter `Boxing`.
pub mod Store
pub mod Fetch
pub mod Serving
pub mod Race
use neokit.Base.{
  ℕ, ◌+◌, ◌*◌, ◌≡◌, u64, pos, Bool, true, false, Option, none, some, if◌then◌else◌, ◌==◌, not,
}
use neokit.Clock.{Instant, Duration, second, zero_time, before, add}

abbrev pub default_max_entries : ℕ
default_max_entries = 4096

abbrev pub retry_backoff : Duration
retry_backoff = pos (5 * second)

-- The conversion of a T to `any` and the type assertion `x.(T)`.
pub record Boxing (V T : Type 0) : Type 0 where
  pub to_any : T → V
  pub assert : V → Option T
  pub assert-to_any : (t : T) → assert (to_any t) ≡ some t

-- type entry struct, less its two mutexes; a nil value is `none`.
pub record Entry (V : Type 0) : Type 0 where
  pub val : Option V
  pub expires : Instant
  pub loaded : Bool
  pub refreshing : Bool
  pub failed : Bool
  pub fetched_at : Instant
  pub gen : ℕ  -- uint64

-- &entry{}
abbrev pub new_entry : {V : Type 0} → Entry V
new_entry = record {
  val = none;
  expires = zero_time;
  loaded = false;
  refreshing = false;
  failed = false;
  fetched_at = zero_time;
  gen = 0;
}

pub record Status : Type 0 where
  pub failed : Bool
  pub fetched_at : Instant

-- What load reports: nothing usable, a value of another type, or a value with its status and
-- whether this caller starts a revalidation.
pub data Load (T : Type 0) : Type 0 where
  miss : Load T
  mismatch : Load T
  hit : T → Status → Bool → Load T

-- What the fetch function does: it returns a value, an error beside a value, or panics.
pub data Outcome (T E : Type 0) : Type 0 where
  fetched : T → Outcome T E
  errored : T → E → Outcome T E
  panicked : Outcome T E

module _ {V : Type 0} where
  abbrev pub status_of : Entry V → Status
  status_of e = record { failed = e.failed; fetched_at = e.fetched_at }

  -- `e.val.(T)`: an assertion on nil fails.
  abbrev pub assert_val : {T : Type 0} → Boxing V T → Option V → Option T
  assert_val box none = none
  assert_val box (some v) = box.assert v

  unfoldable pub load : {T : Type 0} → Boxing V T → Instant → Entry V → Entry V × Load T
  load box now e = if not e.loaded then (e, miss) else elim (assert_val box e.val) [
    | none ↦ (e, mismatch)
    | some got ↦
        if before now e.expires
        then (e, hit got (status_of e) false)
        else if not e.refreshing
        then (record e { refreshing = true }, hit got (status_of e) true)
        else (e, hit got (status_of e) false)
  ]

  -- The critical section of Invalidate.
  unfoldable pub invalidate : Entry V → Entry V
  invalidate e = record e { loaded = false; gen = u64 (e.gen + 1) }

  -- The writes that Fetch and revalidate make for a fresh value.
  abbrev pub store_val : Instant → Duration → V → Entry V → Entry V
  store_val now ttl v e = record e {
    val = some v;
    expires = add now ttl;
    loaded = true;
    failed = false;
    fetched_at = now;
  }

  -- The last critical section of Fetch, for a fetch that saw generation `gen` before it began.
  unfoldable pub publish : Instant → Duration → ℕ → V → Entry V → Entry V
  publish now ttl gen v e = if e.gen == gen then store_val now ttl v e else e

  -- The last critical section of revalidate. Only a fetch that returned without error is ok.
  unfoldable pub settle :
      {T E : Type 0} → Boxing V T → Instant → Duration → ℕ → Outcome T E → Entry V → Entry V
  settle box now ttl gen out e =
      let e' = record e { refreshing = false } in
      if not (e.gen == gen) then e' else elim out [
        | fetched v ↦ store_val now ttl (box.to_any v) e'
        | errored v x ↦ record e' { failed = true; expires = add now retry_backoff }
        | panicked ↦ record e' { failed = true; expires = add now retry_backoff }
      ]
