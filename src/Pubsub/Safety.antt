-- ===== src/Pubsub/Safety.antt =====
-- No interleaving makes the bus panic (pubsub/pubsub.go).
use neokit.Base.{
  ℕ, String, ℤ, arith, contains, ◌≡◌, length-append, true, ◌<◌, ◌∷◌, Distinct, [], lookup, ◌≢◌,
  some, length, ◌≤◌, false, nat_eq, string_eq, List, if◌then◌else◌, refl, ◌==◌, same_refl, ◌∙◌,
  Bool-cases, delete, insert, keep, lookup-insert, inl, lookup-delete, not, ◌&&◌, inr,
}
use neokit.Pubsub.{
  live, removed, Bus, World, new, members, send, send_all, publish, subscribe, remove, finish,
  receive, Step, Reach, publishes, subscribes, removes, finishes, receives, start, after,
  remove_member, put,
}

pub record Inv {T : Type 0} (w : World T) : Type 0 where
  -- A channel that a topic lists is its own, made, and not unsubscribed.
  pub listed :
      (topic : String) (c : ℕ)
      → contains (members topic w.bus.subs) c ≡ true
      → (c < w.bus.next) × (w.home c ≡ topic) × ((w.bus.channels c).stage ≡ live)
  pub distinct : (topic : String) → Distinct (members topic w.bus.subs)
  -- No topic is kept without channels.
  pub inhabited : (topic : String) → lookup topic w.bus.subs ≢ some []
  pub bounded : (c : ℕ) → length (w.bus.channels c).queue ≤ w.bus.buffer
  pub calm : w.bus.panicked ≡ false

new-Inv :
    {T : Type 0} (buffer : ℤ) (home : ℕ → String)
    → Inv {T = T} (record { bus = new buffer; home = home })
unfolding new
new-Inv buffer home = record {
  listed = λ topic c h. cc;
  distinct = λ topic. tt;
  inhabited = λ topic h. cc;
  bounded = λ c. omega arith;
  calm = refl;
}

pub members-insert :
    (k t : String) (cs : List ℕ) (m : List (String × List ℕ))
    → members t (insert k cs m) ≡ (if string_eq.beq k t then cs else members t m)
members-insert k t cs m = ground (arith, lookup-insert k t cs m)

members-delete :
    (k t : String) (m : List (String × List ℕ))
    → members t (delete k m) ≡ (if string_eq.beq k t then [] else members t m)
members-delete k t m = ground (arith, lookup-delete k t m)

-- The channels that a topic lists after a removal.
pub members-remove_member :
    (topic t : String) (c : ℕ) (m : List (String × List ℕ))
    → members t (remove_member topic c m)
      ≡ (if string_eq.beq topic t then keep (λ d. not (d == c)) (members topic m) else members t m)
unfolding remove_member
members-remove_member topic t c m = ground (
  arith,
  members-delete topic t m,
  members-insert topic t (keep (λ d. not (d == c)) (members topic m)) m,
)

lookup-remove_member :
    (topic t : String) (c : ℕ) (m : List (String × List ℕ))
    → lookup t m ≢ some []
    → lookup t (remove_member topic c m) ≢ some []
unfolding remove_member
lookup-remove_member topic t c m h k = ground (
  arith,
  h,
  lookup-delete topic t m,
  lookup-insert topic t (keep (λ d. not (d == c)) (members topic m)) m,
)

pub contains-keep :
    (c d : ℕ) (cs : List ℕ)
    → contains (keep (λ x. not (x == c)) cs) d ≡ contains cs d && not (d == c)
contains-keep c d [] = refl
contains-keep c d (x ∷ cs) = ground (arith, contains-keep c d cs)

Distinct-keep : (c : ℕ) (cs : List ℕ) → Distinct cs → Distinct (keep (λ x. not (x == c)) cs)
Distinct-keep c [] h = tt
Distinct-keep c (x ∷ cs) h = ground (arith, contains-keep c x cs, Distinct-keep c cs h.1)

module _ {T : Type 0} where
  send-Inv :
      (home : ℕ → String) (c : ℕ) (v : T) (b : Bus T)
      → Inv (record { bus = b; home = home })
      → (b.channels c).stage ≡ live
      → Inv (record { bus = send c v b; home = home })
  unfolding send
  send-Inv home c v b i h = record {
    listed = λ topic d k. ground (arith, i.listed topic d);
    distinct = λ topic. ground (arith, i.distinct topic);
    inhabited = λ topic k. ground (arith, i.inhabited topic);
    bounded = λ d. ground (arith, i.bounded d, length-append (b.channels c).queue (v ∷ []));
    calm = ground (arith, i.calm);
  }

  pub send_keeps :
      (c : ℕ) (v : T) (b : Bus T)
      → ((send c v b).subs ≡ b.subs)
        × ((send c v b).next ≡ b.next)
        × ((d : ℕ) → ((send c v b).channels d).stage ≡ (b.channels d).stage)
  unfolding send
  send_keeps c v b = (ground arith, ground arith, λ d. ground arith)

  send_all-Inv :
      (home : ℕ → String) (cs : List ℕ) (v : T) (b : Bus T)
      → Inv (record { bus = b; home = home })
      → ((c : ℕ) → contains cs c ≡ true → (b.channels c).stage ≡ live)
      → Inv (record { bus = send_all cs v b; home = home })
  unfolding send_all
  send_all-Inv home [] v b i h = i
  send_all-Inv home (c ∷ cs) v b i h =
      send_all-Inv home cs v (send c v b)
        (send-Inv home c v b i (h c (ground (arith, same_refl c))))
        (λ d k. (send_keeps c v b).2 d ∙ h d (ground arith))

  pub unlisted :
      (w : World T) (topic : String)
      → Inv w
      → contains (members topic w.bus.subs) w.bus.next ≡ false
  unlisted w topic i = elim (Bool-cases (contains (members topic w.bus.subs) w.bus.next)) [
    | inl t ↦ absurd (omega (arith, (i.listed topic w.bus.next t).0))
    | inr f ↦ f
  ]

  subscribe-Inv :
      (w : World T) (topic : String)
      → Inv w
      → Inv (record {
        bus = (subscribe topic w.bus).0;
        home = λ c. if c == w.bus.next then topic else w.home c;
      })
  unfolding subscribe
  subscribe-Inv w topic i = record {
    listed = λ t c k. ground (
      arith,
      members-insert topic t (w.bus.next ∷ members topic w.bus.subs) w.bus.subs,
      string_eq.beq_iff topic t,
      i.listed t c,
      i.listed topic c,
    );
    distinct = λ t. ground (
      arith,
      members-insert topic t (w.bus.next ∷ members topic w.bus.subs) w.bus.subs,
      i.distinct t,
      i.distinct topic,
      unlisted w topic i,
    );
    inhabited = λ t k. ground (
      arith,
      lookup-insert topic t (w.bus.next ∷ members topic w.bus.subs) w.bus.subs,
      i.inhabited t,
    );
    bounded = λ d. ground (arith, i.bounded d);
    calm = i.calm;
  }

  removed-Inv :
      (w : World T) (c : ℕ)
      → Inv w
      → Inv (record w {
        bus = record (put w.bus c (record (w.bus.channels c) { stage = removed })) {
          subs = remove_member (w.home c) c w.bus.subs;
        };
      })
  removed-Inv w c i = record {
    listed = λ t d k. ground (
      arith,
      members-remove_member (w.home c) t c w.bus.subs,
      contains-keep c d (members (w.home c) w.bus.subs),
      string_eq.beq_iff (w.home c) t,
      i.listed t d,
      i.listed (w.home c) d,
    );
    distinct = λ t. ground (
      arith,
      members-remove_member (w.home c) t c w.bus.subs,
      i.distinct t,
      Distinct-keep c (members (w.home c) w.bus.subs) (i.distinct (w.home c)),
    );
    inhabited = λ t. lookup-remove_member (w.home c) t c w.bus.subs (i.inhabited t);
    bounded = λ d. ground (arith, i.bounded d, i.bounded c);
    calm = i.calm;
  }

  remove-Inv : (w : World T) (c : ℕ) → Inv w → Inv (record w { bus = remove (w.home c) c w.bus })
  unfolding remove
  remove-Inv w c i = ground (arith, i, removed-Inv w c i)

  finish-Inv : (w : World T) (c : ℕ) → Inv w → Inv (record w { bus = finish c w.bus })
  unfolding finish
  finish-Inv w c i = record {
    listed = λ t d k. ground (arith, i.listed t d);
    distinct = λ t. ground (arith, i.distinct t);
    inhabited = λ t k. ground (arith, i.inhabited t);
    bounded = λ d. ground (arith, i.bounded d);
    calm = ground (arith, i.calm);
  }

  receive-Inv : (w : World T) (c : ℕ) → Inv w → Inv (record w { bus = (receive c w.bus).0 })
  unfolding receive
  receive-Inv w c i = record {
    listed = λ t d k. ground (arith, i.listed t d);
    distinct = λ t. ground (arith, i.distinct t);
    inhabited = λ t k. ground (arith, i.inhabited t);
    bounded = λ d. ground (arith, i.bounded d);
    calm = ground (arith, i.calm);
  }

  Step-Inv : {w u : World T} → Step w u → Inv w → Inv u
  unfolding publish
  Step-Inv {w} (publishes topic v) i =
      send_all-Inv w.home (members topic w.bus.subs) v w.bus i (λ c k. (i.listed topic c k).2)
  Step-Inv {w} (subscribes topic) i = subscribe-Inv w topic i
  Step-Inv {w} (removes c h) i = remove-Inv w c i
  Step-Inv {w} (finishes c h) i = finish-Inv w c i
  Step-Inv {w} (receives c) i = receive-Inv w c i

  pub Reach-Inv : (buffer : ℤ) {w : World T} → Reach buffer w → Inv w
  Reach-Inv buffer (start home) = new-Inv buffer home
  Reach-Inv buffer (after r st) = Step-Inv st (Reach-Inv buffer r)

  -- In every interleaving of publishers, subscribers and unsubscribers, nothing is sent on a
  -- closed channel, no channel holds more values than the buffer, a topic lists each of its
  -- channels once, and no topic is kept that has none.
  pub bus_safe :
      (buffer : ℤ) {w : World T}
      → Reach buffer w
      → (w.bus.panicked ≡ false)
        × ((c : ℕ) → length (w.bus.channels c).queue ≤ w.bus.buffer)
        × ((topic : String) → Distinct (members topic w.bus.subs))
        × ((topic : String) → lookup topic w.bus.subs ≢ some [])
  bus_safe buffer r = let i = Reach-Inv buffer r in (i.calm, i.bounded, i.distinct, i.inhabited)
