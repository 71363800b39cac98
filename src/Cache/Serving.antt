-- ===== src/Cache/Serving.antt =====
-- What callers get from an entry, one critical section or one call at a time.
use neokit.Base.{
  List, [], ◌∷◌, Bool, ◌≡◌, ◌≢◌, ◌<◌, ◌^◌, ◌<ℤ◌, ◌≤ℤ◌, true, false, some, arith, refl,
}
use neokit.Clock.{Instant, Duration, add}
use neokit.Cache.{
  Entry, Boxing, Status, miss, hit, Outcome, fetched, errored, load, invalidate, publish, settle,
  assert_val, status_of, retry_backoff,
}
use neokit.Cache.Fetch.{Times, Reply, fetch, value, failure, revalidate}

module _ {V T E : Type 0} (box : Boxing V T) where
  -- A value that a cold fetch stored is served, as fresh and with no fetch, until its TTL is over.
  pub fetch-load_fresh :
      (ttl : Duration) (v : T) (t : Times) (e : Entry V) (now : Instant)
      → e.loaded ≡ false
      → now <ℤ add t.done ttl
      → let (e', reply, spawned) = fetch {E = E} box ttl (fetched v) t e in
        (reply ≡ value v (record { failed = false; fetched_at = t.done }))
        × (load box now e' ≡ (e', hit v (record { failed = false; fetched_at = t.done }) false))
  unfolding fetch load publish
  fetch-load_fresh ttl v t e now cold h = ground (arith, box.assert-to_any v)

  -- An error is never cached: a cold call whose fetch fails hands back that fetch's value and
  -- error, and leaves the entry as it was, so that the next call fetches again.
  pub fetch_error_uncached :
      (ttl : Duration) (v : T) (x : E) (t : Times) (e : Entry V)
      → e.loaded ≡ false
      → fetch box ttl (errored v x) t e ≡ (e, failure v x, false)
  unfolding fetch load
  fetch_error_uncached ttl v x t e cold = ground arith

  -- A stale value is served at once whatever the fetch would do, and of two readers in a row only
  -- the first starts a revalidation.
  pub fetch_stale :
      (ttl ttl' : Duration) (out out' : Outcome T E) (v : T) (t u : Times) (e : Entry V)
      → e.loaded ≡ true
      → assert_val box e.val ≡ some v
      → e.refreshing ≡ false
      → e.expires ≤ℤ t.first
      → e.expires ≤ℤ u.first
      → let e' = (fetch box ttl out t e).0 in
        (fetch box ttl out t e ≡ (e', value v (status_of e), true))
        × (fetch box ttl' out' u e' ≡ (e', value v (status_of e), false))
  unfolding fetch load
  fetch_stale ttl ttl' out out' v t u e l a r h k = (ground arith, ground arith)

  -- A revalidation that fails or panics keeps the last good value, says so in the status, keeps
  -- readers from starting another until the backoff has passed, and lets them afterwards.
  pub revalidate_failed :
      (ttl : Duration) (out : Outcome T E) (v : T) (done now : Instant) (e : Entry V)
      → e.loaded ≡ true
      → assert_val box e.val ≡ some v
      → ((w : T) → out ≢ fetched w)
      → let e' = revalidate box ttl out done e in
        let st : Status = record { failed = true; fetched_at = e.fetched_at } in
        (now <ℤ add done retry_backoff → load box now e' ≡ (e', hit v st false))
        × (add done retry_backoff ≤ℤ now → (load box now e').1 ≡ hit v st true)
  unfolding revalidate settle load
  revalidate_failed ttl (fetched w) v done now e l a f = absurd (f w refl)
  revalidate_failed ttl _ v done now e l a f = (λ h. ground arith, λ h. ground arith)

  -- After an invalidation no look finds a value; what a fetch that read its generation before
  -- the invalidation brings, a first fetch or a revalidation, is dropped.
  pub invalidate_discards :
      (ttl : Duration) (out : Outcome T E) (w : V) (done now : Instant) (e : Entry V)
      → e.gen < 2 ^ 64
      → let e' = invalidate e in
        (load box now e' ≡ (e', miss))
        × (publish done ttl e.gen w e' ≡ e')
        × (settle box done ttl e.gen out e' ≡ record e' { refreshing = false })
  unfolding invalidate load publish settle
  invalidate_discards ttl out w done now e h = (ground arith, ground arith, ground arith)

  -- Calls of Fetch on one key, one after another, and what each gives.
  abbrev pub fetch_all :
      List (Duration × Outcome T E × Times) → Entry V → Entry V × List (Reply T E × Bool)
  fetch_all [] e = (e, [])
  fetch_all ((ttl, out, t) ∷ calls) e =
      let (e', reply, spawned) = fetch box ttl out t e in
      let (e'', rest) = fetch_all calls e' in (e'', (reply, spawned) ∷ rest)
