-- ===== src/Pubsub/Delivery.antt =====
-- Who gets what is published, and what a subscription leaves behind (pubsub/pubsub.go).
use neokit.Base.{
  ℕ, List, if◌then◌else◌, ℤ, ◌≡◌, ◌==◌, String, contains, ltb, arith, length, nat_eq, suc, true,
  ◌++◌, Distinct, ◌∷◌, [], refl, false, insert, same_refl, keep, string_eq, not, ◌∙◌, ==_iff,
}
use neokit.Pubsub.{
  live, Channel, Bus, World, members, send, send_all, publish, subscribe, remove, Reach,
  subscribers,
}
use neokit.Pubsub.Safety.{Reach-Inv, members-remove_member, members-insert, unlisted, send_keeps}

keep_absent : (c : ℕ) (cs : List ℕ) → contains cs c ≡ false → keep (λ d. not (d == c)) cs ≡ cs
keep_absent c [] h = refl
keep_absent c (d ∷ cs) h = ground (arith, keep_absent c cs)

module _ {T : Type 0} where
  -- A channel after a send to it: the value goes to the end, or is dropped if the buffer is full.
  abbrev pub delivered : ℕ → T → Channel T → Channel T
  delivered buffer v ch =
      if ltb (length ch.queue) buffer then record ch { queue = ch.queue ++ v ∷ [] } else ch

  send_lem :
      (c d : ℕ) (v : T) (b : Bus T)
      → (b.channels c).stage ≡ live
      → ((send c v b).channels d
          ≡ (if d == c then delivered b.buffer v (b.channels d) else b.channels d))
        × ((send c v b).buffer ≡ b.buffer)
  unfolding send
  send_lem c d v b h = (ground arith, ground arith)

  send_all_lem :
      (cs : List ℕ) (d : ℕ) (v : T) (b : Bus T)
      → ((c : ℕ) → contains cs c ≡ true → (b.channels c).stage ≡ live)
      → Distinct cs
      → (send_all cs v b).channels d
        ≡ (if contains cs d then delivered b.buffer v (b.channels d) else b.channels d)
  unfolding send_all
  send_all_lem [] d v b h k = refl
  send_all_lem (c ∷ cs) d v b h k =
      let live_c = h c (ground (arith, same_refl c)) in
      ground (
        arith,
        send_lem c d v b live_c,
        send_all_lem cs d v (send c v b) (λ x m. (send_keeps c v b).2 x ∙ h x (ground arith)) k.1,
        ==_iff c d,
        ==_iff d c,
      )

  -- In every reachable state Publish appends the value to each channel that the topic lists and
  -- that has room, drops it for those that are full, and touches no other channel.
  pub publish_lem :
      (buffer : ℤ) {w : World T} (topic : String) (v : T) (c : ℕ)
      → Reach buffer w
      → (publish topic v w.bus).channels c ≡ (
          if contains (members topic w.bus.subs) c
          then delivered w.bus.buffer v (w.bus.channels c)
          else w.bus.channels c)
  unfolding publish
  publish_lem buffer {w} topic v c r =
      let i = Reach-Inv buffer r in
      send_all_lem (members topic w.bus.subs) c v w.bus (λ d k. (i.listed topic d k).2)
        (i.distinct topic)

  -- In every reachable state a subscription that is undone at once leaves every topic's channels
  -- as they were, and while it stands its topic has one subscriber more.
  pub subscribe-remove :
      (buffer : ℤ) {w : World T} (topic t : String)
      → Reach buffer w
      → let (b, c) = subscribe topic w.bus in
        (subscribers topic b ≡ suc (subscribers topic w.bus))
        × (members t (remove topic c b).subs ≡ members t w.bus.subs)
  unfolding subscribe remove subscribers
  subscribe-remove buffer {w} topic t r =
      let i = Reach-Inv buffer r in
      let cs = members topic w.bus.subs in
      let m = insert topic (w.bus.next ∷ cs) w.bus.subs in
      let absent = unlisted w topic i in
      (
        ground (arith, members-insert topic topic (w.bus.next ∷ cs) w.bus.subs, same_refl topic),
        ground (
          arith,
          same_refl topic,
          members-remove_member topic t w.bus.next m,
          members-insert topic t (w.bus.next ∷ cs) w.bus.subs,
          members-insert topic topic (w.bus.next ∷ cs) w.bus.subs,
          keep_absent w.bus.next cs absent,
          string_eq.beq_iff topic t,
        ),
      )
