-- ===== src/Pubsub.antt =====
-- pubsub/pubsub.go: an in-process fan-out of values to the subscribers of a topic. Channels are
-- numbered; a subscriber holds the number of its channel. A critical section under the bus's
-- mutex is one function, Publish under the read lock too; the closing of a channel comes after the unlock and is one of its own.
-- A send on a closed channel, and a second close, panics in Go: that sets `panicked`.
pub mod Safety
pub mod Delivery
use neokit.Base.{
  ℕ, Bool, List, Option, String, if◌then◌else◌, ℤ, ◌==◌, [], keep, leb_ℤ, length, lookup, true, ◌∷◌,
  ◌<◌, false, insert, ltb, none, not, pos, ◌++◌, delete, pos_part, some, suc, string_eq,
}

abbrev pub default_buffer : ℕ
default_buffer = 16

-- Where the unsubscribe function of a channel is: not called, past its critical section, through.
pub data Stage : Type 0 where
  live removed closed : Stage

pub record Channel (T : Type 0) : Type 0 where
  pub queue : List T
  pub stage : Stage

pub record Bus (T : Type 0) : Type 0 where
  pub buffer : ℕ
  pub subs : List (String × List ℕ)
  pub channels : ℕ → Channel T
  pub next : ℕ  -- the first channel not made
  pub panicked : Bool

-- b.subs[topic]: a missing topic has no channels.
abbrev pub members : String → List (String × List ℕ) → List ℕ
members topic subs = elim (lookup topic subs) [ none ↦ [] | some cs ↦ cs ]

abbrev pub is_closed : Stage → Bool
is_closed closed = true
is_closed live = false
is_closed removed = false

-- `delete(b.subs[topic], ch)`, and the topic goes with its last channel.
unfoldable pub remove_member : String → ℕ → List (String × List ℕ) → List (String × List ℕ)
remove_member topic c subs = elim (keep (λ d. not (d == c)) (members topic subs)) [
  | [] ↦ delete topic subs
  | d ∷ ds ↦ insert topic (d ∷ ds) subs
]

module _ {T : Type 0} where
  -- New
  unfoldable pub new : ℤ → Bus T
  new buffer = record {
    buffer = if leb_ℤ buffer (pos 0) then default_buffer else pos_part buffer;
    subs = [];
    channels = λ c. record { queue = []; stage = live };
    next = 0;
    panicked = false;
  }

  abbrev pub put : Bus T → ℕ → Channel T → Bus T
  put b c ch = record b { channels = λ d. if d == c then ch else b.channels d }

  -- `select { case ch <- v: default: }`
  unfoldable pub send : ℕ → T → Bus T → Bus T
  send c v b =
      let ch = b.channels c in
      if is_closed ch.stage
      then record b { panicked = true }
      else if ltb (length ch.queue) b.buffer
      then put b c (record ch { queue = ch.queue ++ v ∷ [] })
      else b

  unfoldable pub send_all : List ℕ → T → Bus T → Bus T
  unfolding send
  send_all [] v b = b
  send_all (c ∷ cs) v b = send_all cs v (send c v b)

  -- Publish
  unfoldable pub publish : String → T → Bus T → Bus T
  unfolding send_all
  publish topic v b = send_all (members topic b.subs) v b

  -- Subscribe, with the channel that it makes.
  unfoldable pub subscribe : String → Bus T → Bus T × ℕ
  subscribe topic b =
      let c = b.next in
      let b' = put b c (record { queue = []; stage = live }) in
      (record b' { subs = insert topic (c ∷ members topic b.subs) b.subs; next = suc c }, c)

  -- The critical section of an unsubscribe function; sync.Once lets only the first call in.
  unfoldable pub remove : String → ℕ → Bus T → Bus T
  unfolding remove_member
  remove topic c b = elim (b.channels c).stage [
    | live ↦ record (put b c (record (b.channels c) { stage = removed })) {
      subs = remove_member topic c b.subs;
    }
    | removed ↦ b
    | closed ↦ b
  ]

  -- The close that follows it.
  unfoldable pub finish : ℕ → Bus T → Bus T
  finish c b = elim (b.channels c).stage [
    | live ↦ b
    | removed ↦ put b c (record (b.channels c) { stage = closed })
    | closed ↦ b
  ]

  -- A receive by the subscriber.
  unfoldable pub receive : ℕ → Bus T → Bus T × Option T
  receive c b = elim (b.channels c).queue [
    | [] ↦ (b, none)
    | v ∷ queue ↦ (put b c (record (b.channels c) { queue = queue }), some v)
  ]

  -- Subscribers
  unfoldable pub subscribers : String → Bus T → ℕ
  subscribers topic b = length (members topic b.subs)

-- A step of a bus. An unsubscribe function belongs to the topic and channel of its Subscribe:
-- `home` keeps, beside the code, the topic of every channel.
pub record World (T : Type 0) : Type 0 where
  pub bus : Bus T
  pub home : ℕ → String

pub data Step {T : Type 0} (w : World T) : World T → Type 0 where
  publishes : (topic : String) (v : T) → Step w (record w { bus = publish topic v w.bus })
  subscribes :
      (topic : String)
      → Step w (record {
        bus = (subscribe topic w.bus).0;
        home = λ c. if c == w.bus.next then topic else w.home c;
      })
  removes : (c : ℕ) → c < w.bus.next → Step w (record w { bus = remove (w.home c) c w.bus })
  finishes : (c : ℕ) → c < w.bus.next → Step w (record w { bus = finish c w.bus })
  receives : (c : ℕ) → Step w (record w { bus = (receive c w.bus).0 })

pub data Reach {T : Type 0} (buffer : ℤ) : World T → Type 0 where
  start : (home : ℕ → String) → Reach buffer (record { bus = new buffer; home = home })
  after : {w u : World T} → Reach buffer w → Step w u → Reach buffer u
