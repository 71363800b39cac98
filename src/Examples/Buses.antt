-- ===== src/Examples/Buses.antt =====
-- A bus with the default buffer and one subscriber of "news".
use neokit.Base.{
  ℕ, String, ◌≡◌, ◌≢◌, ◌≤◌, [], some, false, pos, length, lookup, Distinct, if◌then◌else◌,
  string_eq, nat_eq, ◌==◌,
}
use neokit.Pubsub.{
  World, Reach, start, after, subscribes, publishes, new, members, publish, subscribe,
}
use neokit.Pubsub.Safety.{bus_safe}

abbrev world : World ℕ
world = record {
  bus = publish "news" 7 (subscribe "news" (new (pos 0))).0;
  home = λ c. if c == 0 then "news" else "";
}

world-Reach : Reach (pos 0) world
unfolding new
world-Reach = after (after (start (λ c. "")) (subscribes "news")) (publishes "news" 7)

bus_safe_example :
    (world.bus.panicked ≡ false)
    × ((c : ℕ) → length (world.bus.channels c).queue ≤ world.bus.buffer)
    × ((topic : String) → Distinct (members topic world.bus.subs))
    × ((topic : String) → lookup topic world.bus.subs ≢ some [])
bus_safe_example = bus_safe (pos 0) world-Reach
