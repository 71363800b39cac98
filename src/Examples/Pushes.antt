-- ===== src/Examples/Pushes.antt =====
-- A message to a phone that takes it and a laptop whose browser threw its subscription away.
use neokit.Base.{
  Bool, List, [], if◌then◌else◌, length, ◌∷◌, ◌≡◌, ◌++◌, ◌<◌, arith, refl, true, ◌≤◌, ◌+◌,
}
use neokit.Delivery.{
  Subscription, Reply, answered, start, Fan, launched, landed, launches, lands, Reach, begins,
  steps,
}
use neokit.Delivery.Fanout.{count, tally, takes, is_gone, send_to_tally}
use neokit.Text.{Text, codes, text_eq}

abbrev phone : Subscription
phone = record { endpoint = codes "p"; auth = []; p256dh = [] }

abbrev laptop : Subscription
laptop = record { endpoint = codes "l"; auth = []; p256dh = [] }

abbrev reply : Subscription → Reply
reply s = if text_eq s.endpoint (codes "p") then answered 201 else answered 410

abbrev subs : List Subscription
subs = phone ∷ laptop ∷ []

abbrev one_up : Fan
one_up = launched phone (laptop ∷ []) (start subs)

abbrev one_down : Fan
one_down = landed reply [] phone [] one_up

first_half : Reach reply 1 subs one_down
first_half =
    steps (steps begins (launches (start subs) phone (laptop ∷ []) refl (omega arith)))
      (lands one_up [] [] phone refl)

landed_waiting : one_down.waiting ≡ laptop ∷ []
unfolding landed
landed_waiting = refl

landed_flying : length one_down.flying < 1
unfolding landed
landed_flying = omega arith

abbrev two_up : Fan
two_up = launched laptop [] one_down

two_flying : two_up.flying ≡ [] ++ laptop ∷ []
unfolding landed
two_flying = refl

abbrev over : Fan
over = landed reply [] laptop [] two_up

finished : Reach reply 1 subs over
finished =
    steps (steps first_half (launches one_down laptop [] landed_waiting landed_flying))
      (lands two_up [] [] laptop two_flying)

abbrev any_endpoint : Text → Bool
any_endpoint e = true

send_to_tally_example :
    (length over.flying ≤ 1)
    × (over.delivered
          + count (takes reply any_endpoint) over.flying
          + count (takes reply any_endpoint) over.waiting
        ≡ count (takes reply any_endpoint) subs)
    × (tally any_endpoint over.retired
          + count (is_gone reply any_endpoint) over.flying
          + count (is_gone reply any_endpoint) over.waiting
        ≡ count (is_gone reply any_endpoint) subs)
send_to_tally_example = send_to_tally reply any_endpoint 1 subs finished
