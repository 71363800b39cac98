-- ===== src/Cache/Race.antt =====
-- The interleavings of callers on one entry (cache/cache.go): readers, the callers that queue for
-- the fetch lock, background revalidations and Invalidate. A step is one critical section under
-- the entry's mutex, or the taking of the fetch lock. `invalidations` and the `seen` of a fetch
-- are not in the code: they count the calls of Invalidate, so that one can say what a value is
-- younger than. Fewer than 2^64 invalidations are made of one entry, so `gen` does not wrap.
pub mod Invariant
use neokit.Base.{
  ℕ, suc, ◌^◌, ◌<◌, ◌≡◌, Bool, true, false, Option, none, some, List, [], ◌∷◌, ◌++◌, if◌then◌else◌,
  ◌==◌,
}
use neokit.Clock.{Instant, Duration}
use neokit.Cache.{
  Entry, Boxing, Load, miss, mismatch, hit, Outcome, fetched, errored, panicked, load, invalidate,
  publish, settle, new_entry,
}

-- Where a fetch is: it has not read the generation, or it runs with the one that it read.
pub data Phase : Type 0 where
  looking : Phase
  cold : Phase
  running : ℕ → ℕ → Phase

pub record World (V : Type 0) : Type 0 where
  pub entry : Entry V
  pub holder : Option Phase  -- the caller that holds the fetch lock
  pub flights : List Phase  -- the revalidations under way
  pub invalidations : ℕ
  pub source : ℕ  -- the invalidations that the fetch of the stored value had seen

abbrev pub starts : {T : Type 0} → Load T → Bool
starts (hit v st spawn) = spawn
starts miss = false
starts mismatch = false

abbrev pub is_miss : {T : Type 0} → Load T → Bool
is_miss miss = true
is_miss (hit v st spawn) = false
is_miss mismatch = false

abbrev pub is_good : {T E : Type 0} → Outcome T E → Bool
is_good (fetched v) = true
is_good (errored v x) = false
is_good panicked = false

module _ {V : Type 0} where
  unfoldable pub start : World V
  start = record { entry = new_entry; holder = none; flights = []; invalidations = 0; source = 0 }

  -- What a publication does to the source: the fetch's own, if the value is taken.
  abbrev pub source_after : ℕ → ℕ → Bool → World V → ℕ
  source_after gen seen good w =
      if w.entry.gen == gen then (if good then seen else w.source) else w.source

  module _ {T : Type 0} (E : Type 0) (box : Boxing V T) (ttl : Duration) where
    pub data Step : World V → World V → Type 0 where
      -- A caller's first look; a stale hit starts a revalidation.
      look :
          (w : World V) (now : Instant)
          → Step w (record w {
            entry = (load box now w.entry).0;
            flights = if starts (load box now w.entry).1 then looking ∷ w.flights else w.flights;
          })
      lock : (w : World V) → w.holder ≡ none → Step w (record w { holder = some looking })
      -- The look under the fetch lock: a miss goes on, all else returns.
      recheck :
          (w : World V) (now : Instant)
          → w.holder ≡ some looking
          → Step w (record w {
            entry = (load box now w.entry).0;
            holder = if is_miss (load box now w.entry).1 then some cold else none;
          })
      read_gen :
          (w : World V)
          → w.holder ≡ some cold
          → Step w (record w { holder = some (running w.entry.gen w.invalidations) })
      finish :
          (w : World V) (now : Instant) (v : T) (gen seen : ℕ)
          → w.holder ≡ some (running gen seen)
          → Step w (record w {
            entry = publish now ttl gen (box.to_any v) w.entry;
            holder = none;
            source = source_after gen seen true w;
          })
      -- An error or a panic of the fetch releases the lock and stores nothing.
      give_up :
          (w : World V) (gen seen : ℕ)
          → w.holder ≡ some (running gen seen)
          → Step w (record w { holder = none })
      flight_gen :
          (w : World V) (fs gs : List Phase)
          → w.flights ≡ fs ++ looking ∷ gs
          → Step w (record w { flights = fs ++ running w.entry.gen w.invalidations ∷ gs })
      land :
          (w : World V) (now : Instant) (out : Outcome T E) (gen seen : ℕ) (fs gs : List Phase)
          → w.flights ≡ fs ++ running gen seen ∷ gs
          → Step w (record w {
            entry = settle box now ttl gen out w.entry;
            flights = fs ++ gs;
            source = source_after gen seen (is_good out) w;
          })
      invalidates :
          (w : World V)
          → suc w.invalidations < 2 ^ 64
          → Step w (record w { entry = invalidate w.entry; invalidations = suc w.invalidations })

    pub data Reach : World V → Type 0 where
      here : Reach start
      next : {w u : World V} → Reach w → Step w u → Reach u
