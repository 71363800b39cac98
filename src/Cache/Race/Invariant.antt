-- ===== src/Cache/Race/Invariant.antt =====
-- What no interleaving of callers breaks (neokit.Cache.Race).
use neokit.Base.{
  ℕ, suc, ◌^◌, ◌≤◌, ◌<◌, ◌≡◌, ◌≢◌, refl, ap, subst, ◌∙◌, true, Option, none, some, List, [], ◌∷◌,
  ◌++◌, All, length, arith, if◌then◌else◌, All-replace, length-replace, All-middle, All-remove,
  length-middle,
}
use neokit.Clock.{Duration}
use neokit.Cache.{Boxing, load, invalidate, publish, settle}
use neokit.Cache.Race.{
  Phase, looking, cold, running, World, start, Step, Reach, look, lock, recheck, read_gen, finish,
  give_up, flight_gen, land, invalidates, here, next,
}

-- A fetch has seen no more invalidations than there were, and its generation counts them.
abbrev Sees : ℕ → Phase → Type 0
Sees n looking = Unit
Sees n cold = Unit
Sees n (running gen seen) = (gen ≡ seen) × (seen ≤ n)

abbrev HolderSees : ℕ → Option Phase → Type 0
HolderSees n none = Unit
HolderSees n (some p) = Sees n p

Sees-mono : (n : ℕ) (p : Phase) → Sees n p → Sees (suc n) p
Sees-mono n looking h = tt
Sees-mono n cold h = tt
Sees-mono n (running gen seen) h = ground arith

HolderSees-mono : (n : ℕ) (o : Option Phase) → HolderSees n o → HolderSees (suc n) o
HolderSees-mono n none h = tt
HolderSees-mono n (some p) h = Sees-mono n p h

All-mono : (n : ℕ) (ps : List Phase) → All (Sees n) ps → All (Sees (suc n)) ps
All-mono n [] h = tt
All-mono n (p ∷ ps) h = (Sees-mono n p h.0, All-mono n ps h.1)

module _ {V : Type 0} where
  record Inv (w : World V) : Type 0 where
    small : w.invalidations < 2 ^ 64
    counts : w.entry.gen ≡ w.invalidations
    current : w.entry.loaded ≡ true → w.source ≡ w.invalidations
    holder_sees : HolderSees w.invalidations w.holder
    flights_see : All (Sees w.invalidations) w.flights
    single : length w.flights ≤ (if w.entry.refreshing then 1 else 0)

  start-Inv : Inv (start {V = V})
  unfolding start
  start-Inv = ground arith

  module _ {T : Type 0} (E : Type 0) (box : Boxing V T) (ttl : Duration) where
    Step-Inv : {w u : World V} → Step E box ttl w u → Inv w → Inv u
    unfolding load publish settle invalidate
    Step-Inv (look w now) v = ground arith
    Step-Inv (lock w h) v = ground arith
    Step-Inv (recheck w now h) v = ground arith
    Step-Inv (read_gen w h) v = ground arith
    Step-Inv (finish w now x gen seen h) v = ground arith
    Step-Inv (give_up w gen seen h) v = ground arith
    Step-Inv (flight_gen w fs gs h) v = record {
      small = v.small;
      counts = v.counts;
      current = v.current;
      holder_sees = v.holder_sees;
      flights_see =
          All-replace (Sees w.invalidations) fs gs looking (running w.entry.gen w.invalidations)
            (v.counts, omega arith) (subst (All (Sees w.invalidations)) h v.flights_see);
      single =
          subst (λ n. n ≤ (if w.entry.refreshing then 1 else 0))
            (ap length h ∙ length-replace fs gs looking (running w.entry.gen w.invalidations))
            v.single;
    }
    Step-Inv (land w now out gen seen fs gs h) v =
        let sees : Sees w.invalidations (running gen seen) =
          All-middle (Sees w.invalidations) fs gs (running gen seen)
            (subst (All (Sees w.invalidations)) h v.flights_see) in
        let others : All (Sees w.invalidations) (fs ++ gs) =
          All-remove (Sees w.invalidations) fs gs (running gen seen)
            (subst (All (Sees w.invalidations)) h v.flights_see) in
        let fewer : length w.flights ≡ suc (length (fs ++ gs)) =
          ap length h ∙ length-middle fs gs (running gen seen) in
        record {
          small = v.small;
          counts = ground arith;
          current = ground arith;
          holder_sees = v.holder_sees;
          flights_see = others;
          single = ground arith;
        }
    Step-Inv (invalidates w h) v = record {
      small = h;
      counts = ground arith;
      current = ground arith;
      holder_sees = HolderSees-mono w.invalidations w.holder v.holder_sees;
      flights_see = All-mono w.invalidations w.flights v.flights_see;
      single = v.single;
    }

    Reach-Inv : {w : World V} → Reach E box ttl w → Inv w
    Reach-Inv here = start-Inv
    Reach-Inv (next r st) = Step-Inv st (Reach-Inv r)

    -- In every interleaving of fewer than 2^64 invalidations, a value that the entry serves was
    -- fetched by a call that began after the latest invalidation.
    pub served_is_current :
        {w : World V} → Reach E box ttl w → w.entry.loaded ≡ true → w.source ≡ w.invalidations
    served_is_current r = (Reach-Inv r).current

    -- In every interleaving of fewer than 2^64 invalidations, at most one revalidation of the
    -- entry is under way, and the entry says so while it is.
    pub one_revalidation :
        {w : World V}
        → Reach E box ttl w
        → (length w.flights ≤ 1) × (w.flights ≢ [] → w.entry.refreshing ≡ true)
    one_revalidation {w} r = (bound, says w.flights refl)
      where
        held : length w.flights ≤ (if w.entry.refreshing then 1 else 0)
        held = (Reach-Inv r).single

        bound : length w.flights ≤ 1
        bound = ground (arith, held)

        says : (fs : List Phase) → w.flights ≡ fs → fs ≢ [] → w.entry.refreshing ≡ true
        says [] e h = absurd (h refl)
        says (f ∷ fs) e h = ground (arith, held, ap length e)
