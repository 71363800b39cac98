-- ===== src/Examples/Caching.antt =====
-- A cache of numbers: an entry at second 10, with values that live for a minute.
use neokit.Base.{ℕ, ◌*◌, pos, true, false, some, arith, refl, String, [], ◌∷◌, string_eq, List}
use neokit.Clock.{Instant, second, Duration}
use neokit.Cache.{Boxing, Entry, Outcome, errored, new_entry, fetched}
use neokit.Cache.Fetch.{Times}
use neokit.Cache.Store.{Cache}
use neokit.Cache.Store.Eviction.{Inv}

abbrev numbers : Boxing ℕ ℕ
numbers = record { to_any = λ n. n; assert = λ n. some n; assert-to_any = λ n. refl }

abbrev at : ℕ → Instant
at s = pos (s * second)

abbrev ttl : Duration
ttl = pos (60 * second)

abbrev times : Times
times = record { first = at 100; second = at 101; done = at 102 }

abbrev stale : Entry ℕ
stale = record {
  val = some 7;
  expires = at 70;
  loaded = true;
  refreshing = false;
  failed = false;
  fetched_at = at 10;
  gen = 3;
}

abbrev down : Outcome ℕ String
down = errored 0 "down"

abbrev later : List (Duration × Outcome ℕ String × Times)
later = (ttl, fetched 8, times) ∷ (ttl, down, times) ∷ []

abbrev full : Cache ℕ
full = record {
  entries = ("b", 1) ∷ ("a", 0) ∷ [];
  order = "b" ∷ "a" ∷ [];
  max_entries = 2;
  heap = λ p. new_entry;
  next = 2;
}

full-Inv : Inv full
full-Inv = record { ordered = refl; distinct = ground arith; capped = ground arith }
