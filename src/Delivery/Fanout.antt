-- ===== src/Delivery/Fanout.antt =====
-- What a message to many subscribers comes to (webpush/delivery/sender.go).
use neokit.Base.{
  Bool, List, ℕ, ◌++◌, arith, length, ◌≡◌, ◌∷◌, ◌+◌, ◌<◌, ◌≤◌, [], ap, suc, ◌∙◌, length-append,
  Bool-cases, inl, inr, ◌&&◌,
}
use neokit.Delivery.{
  Subscription, Reply, accepted, gone, one_if, Fan, launched, landed, launches, lands, Reach,
  begins, steps,
}
use neokit.Text.{Text}

abbrev pub count : (Subscription → Bool) → List Subscription → ℕ
count p [] = 0
count p (s ∷ subs) = one_if (p s) + count p subs

count-append :
    (p : Subscription → Bool) (xs ys : List Subscription)
    → count p (xs ++ ys) ≡ count p xs + count p ys
count-append p [] ys = omega arith
count-append p (s ∷ xs) ys = omega (arith, count-append p xs ys)

-- How many endpoints of a list satisfy a test.
abbrev pub tally : (Text → Bool) → List Text → ℕ
tally q [] = 0
tally q (e ∷ es) = one_if (q e) + tally q es

module _ (reply : Subscription → Reply) (q : Text → Bool) where
  abbrev pub takes : Subscription → Bool
  takes s = accepted (reply s)

  abbrev pub is_gone : Subscription → Bool
  is_gone s = gone (reply s) && q s.endpoint

  -- The deliveries are accounted for.
  Accounted : ℕ → List Subscription → Fan → Type 0
  Accounted limit subs f =
      (length f.flying ≤ limit)
      × (f.delivered + count takes f.flying + count takes f.waiting ≡ count takes subs)
      × (tally q f.retired + count is_gone f.flying + count is_gone f.waiting ≡ count is_gone subs)

  launch-Accounted :
      (limit : ℕ) (subs : List Subscription) (f : Fan) (s : Subscription) (rest : List Subscription)
      → f.waiting ≡ s ∷ rest
      → length f.flying < limit
      → Accounted limit subs f
      → Accounted limit subs (launched s rest f)
  unfolding Accounted
  launch-Accounted limit subs f s rest e h (a, b, c) =
      ground (arith, a, b, c, h, ap (count takes) e, ap (count is_gone) e)

  land-Accounted :
      (limit : ℕ) (subs : List Subscription) (f : Fan) (before after : List Subscription)
      (s : Subscription)
      → f.flying ≡ before ++ s ∷ after
      → Accounted limit subs f
      → Accounted limit subs (landed reply before s after f)
  unfolding Accounted landed
  land-Accounted limit subs f before after s e (a, b, c) = elim (Bool-cases (gone (reply s))) [
    | inl g ↦ ground (
      arith,
      a,
      b,
      c,
      g,
      all,
      some_taken,
      some_gone,
      count-append takes before after,
      count-append is_gone before after,
      length-append before after,
    )
    | inr g ↦ ground (
      arith,
      a,
      b,
      c,
      g,
      all,
      some_taken,
      some_gone,
      count-append takes before after,
      count-append is_gone before after,
      length-append before after,
    )
  ]
    where
      all : length f.flying ≡ length before + suc (length after)
      all = ap length e ∙ length-append before (s ∷ after)

      some_taken :
          count takes f.flying ≡ count takes before + (one_if (takes s) + count takes after)
      some_taken = ap (count takes) e ∙ count-append takes before (s ∷ after)

      some_gone :
          count is_gone f.flying ≡ count is_gone before + (one_if (is_gone s) + count is_gone after)
      some_gone = ap (count is_gone) e ∙ count-append is_gone before (s ∷ after)

  accounted :
      (limit : ℕ) (subs : List Subscription) {f : Fan}
      → Reach reply limit subs f
      → Accounted limit subs f
  unfolding Accounted
  accounted limit subs begins = ground arith
  accounted limit subs (steps r (launches f s rest e h)) =
      launch-Accounted limit subs f s rest e h (accounted limit subs r)
  accounted limit subs (steps r (lands f before after s e)) =
      land-Accounted limit subs f before after s e (accounted limit subs r)

  -- However the deliveries interleave, no more than the limit are in flight at once, and every
  -- subscriber is accounted for: the tally, with those in flight or waiting whose push service accepts
  -- the message, is their number in the list; and the endpoints retired, with those in flight or
  -- waiting that are answered 404 or 410, are those of the list, by any test on endpoints. So the
  -- final count is exact, and exactly the subscriptions that are gone are retired.
  pub send_to_tally :
      (limit : ℕ) (subs : List Subscription) {f : Fan}
      → Reach reply limit subs f
      → (length f.flying ≤ limit)
        × (f.delivered + count takes f.flying + count takes f.waiting ≡ count takes subs)
        × (tally q f.retired + count is_gone f.flying + count is_gone f.waiting
            ≡ count is_gone subs)
  unfolding Accounted
  send_to_tally limit subs r = accounted limit subs r
