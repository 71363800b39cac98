-- ===== src/Examples/Races.antt =====
-- One key, two callers: the first fetches cold and stores 7, the second reads it stale.
use neokit.Base.{◌+ℤ◌, ℕ, String, ◌*◌, ◌≡◌, ◌≢◌, ◌≤◌, pos, true, some, refl, [], length, none, ◌∷◌}
use neokit.Clock.{Instant, Duration, second}
use neokit.Cache.{Boxing, load, publish, new_entry}
use neokit.Cache.Race.{
  World, start, Reach, here, next, look, lock, recheck, read_gen, finish, running, cold, looking,
}
use neokit.Cache.Race.Invariant.{served_is_current, one_revalidation}

abbrev boxed : Boxing ℕ ℕ
boxed = record { to_any = λ n. n; assert = λ n. some n; assert-to_any = λ n. refl }

abbrev one_minute : Duration
one_minute = pos (60 * second)

abbrev Reached : World ℕ → Type 0
Reached w = Reach {T = ℕ} String boxed one_minute w

abbrev begun : Instant
begun = pos (10 * second)

abbrev locked : World ℕ
locked = record start { holder = some looking }

abbrev checked : World ℕ
checked = record locked { holder = some cold }

abbrev waiting : World ℕ
waiting = record checked { holder = some (running 0 0) }

abbrev stored : World ℕ
stored = record waiting {
  entry = publish begun one_minute 0 7 new_entry;
  holder = none;
  source = 0;
}

abbrev read : World ℕ
read = record stored { entry = record stored.entry { refreshing = true }; flights = looking ∷ [] }

stored-Reached : Reached stored
unfolding start load publish
stored-Reached =
    next
      (next (next (next here (lock start refl)) (recheck locked begun refl))
        (read_gen checked refl))
      (finish waiting begun 7 0 0 refl)

read-Reached : Reached read
unfolding start load publish ◌+ℤ◌
read-Reached = next stored-Reached (look stored (pos (100 * second)))

served_is_current_example : stored.source ≡ stored.invalidations
unfolding start load publish
served_is_current_example = served_is_current String boxed one_minute stored-Reached refl

one_revalidation_example :
    (length read.flights ≤ 1) × (read.flights ≢ [] → read.entry.refreshing ≡ true)
one_revalidation_example = one_revalidation String boxed one_minute read-Reached
