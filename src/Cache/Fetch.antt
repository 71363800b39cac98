-- ===== src/Cache/Fetch.antt =====
-- Fetch, GetOrFetch and revalidate (cache/cache.go) as one caller runs them alone: the critical
-- sections of neokit.Cache in the order of the code. Race has the interleavings.
use neokit.Base.{Bool, false}
use neokit.Clock.{Instant, Duration}
use neokit.Cache.{
  Entry, Boxing, Status, miss, mismatch, hit, Outcome, fetched, errored, panicked, load, publish,
  settle,
}

-- What a call of Fetch gives: a value with its status, the failed fetch's value and error, an
-- error for a value of another type, or the panic of the fetch function.
pub data Reply (T E : Type 0) : Type 0 where
  value : T → Status → Reply T E
  failure : T → E → Reply T E
  type_mismatch : Reply T E
  panic : Reply T E

-- The instants that one call reads: at the first look, at the second, and after the fetch.
pub record Times : Type 0 where
  pub first : Instant
  pub second : Instant
  pub done : Instant

module _ {V T E : Type 0} (box : Boxing V T) (ttl : Duration) (out : Outcome T E) where
  -- From `gen := e.gen` on.
  unfoldable pub run_fetch : Instant → Entry V → Entry V × Reply T E
  run_fetch done e = elim out [
    | fetched v ↦ (
      publish done ttl e.gen (box.to_any v) e,
      value v (record { failed = false; fetched_at = done }),
    )
    | errored v x ↦ (e, failure v x)
    | panicked ↦ (e, panic)
  ]

  -- The cold path, from the second look on, with whether it started a revalidation: the answer of
  -- load that says whether this caller has claimed one is not read.
  unfoldable pub recheck : Times → Entry V → Entry V × Reply T E × Bool
  unfolding run_fetch
  recheck t e =
      let (e', r) = load box t.second e in
      elim r [
        | mismatch ↦ (e', type_mismatch, false)
        | hit v st spawn ↦ (e', value v st, false)
        | miss ↦ let (e'', reply) = run_fetch t.done e' in (e'', reply, false)
      ]

  -- Fetch; the last part says whether it started a revalidation.
  unfoldable pub fetch : Times → Entry V → Entry V × Reply T E × Bool
  unfolding recheck
  fetch t e =
      let (e', r) = load box t.first e in
      elim r [
        | mismatch ↦ (e', type_mismatch, false)
        | hit v st spawn ↦ (e', value v st, spawn)
        | miss ↦ recheck t e'
      ]

  -- revalidate, run alone: it reads the generation, fetches and settles.
  unfoldable pub revalidate : Instant → Entry V → Entry V
  revalidate done e = settle box done ttl e.gen out e
