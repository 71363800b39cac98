-- ===== src/Text/Trimming.antt =====
-- When trimming and splitting leave a text as it is.
use neokit.Base.{
  ℕ, Bool, any, ◌++◌, ◌==◌, reverse, true, ◌≡◌, false, ◌||◌, ◌∷◌, [], ap, arith, not, refl, ◌∙◌,
  sym, take, suc, zero,
}
use mathlib.Core.List.{reverse-append, reverse-cons, reverse-reverse}
use neokit.Text.{Text, drop_while, trim, split}

module _ (p : ℕ → Bool) where
  pub any-append : (s t : Text) → any p (s ++ t) ≡ (any p s || any p t)
  any-append [] t = refl
  any-append (c ∷ s) t = ground (arith, any-append s t)

  any-reverse : (s : Text) → any p (reverse s) ≡ any p s
  any-reverse [] = refl
  any-reverse (c ∷ s) =
      ap (any p) (reverse-cons c s) ∙ ground (arith, any-append (reverse s) (c ∷ []), any-reverse s)

  pub any-drop_while : (q : ℕ → Bool) (s : Text) → any p s ≡ false → any p (drop_while q s) ≡ false
  unfolding drop_while
  any-drop_while q [] h = refl
  any-drop_while q (c ∷ s) h = ground (arith, h, any-drop_while q s)

  pub any-trim : (q : ℕ → Bool) (s : Text) → any p s ≡ false → any p (trim q s) ≡ false
  unfolding trim
  any-trim q s h =
      let front = any-drop_while q s h in
      let back =
        any-drop_while q (reverse (drop_while q s)) (any-reverse (drop_while q s) ∙ front) in
      any-reverse (drop_while q (reverse (drop_while q s))) ∙ back

  pub any-take : (n : ℕ) (s : Text) → any p s ≡ false → any p (take n s) ≡ false
  any-take zero s h = refl
  any-take (suc n) [] h = refl
  any-take (suc n) (c ∷ s) h = ground (arith, any-take n s, h)

  -- The first character stays.
  abbrev pub stays : Text → Bool
  stays [] = true
  stays (c ∷ s) = not (p c)

  drop_while-stays : (s : Text) → stays s ≡ true → drop_while p s ≡ s
  unfolding drop_while
  drop_while-stays [] h = refl
  drop_while-stays (c ∷ s) h = ground (arith, h)

  drop_while-one : (c : ℕ) (s : Text) → p c ≡ true → stays s ≡ true → drop_while p (c ∷ s) ≡ s
  unfolding drop_while
  drop_while-one c s h k = ground (arith, h, drop_while-stays s k)

  free-stays : (s : Text) → any p s ≡ false → stays s ≡ true
  free-stays [] h = refl
  free-stays (c ∷ s) h = ground (arith, h)

  -- A text whose first and last characters are not trimmed stays as it is.
  pub trim_ends :
      (s : Text) (z : ℕ)
      → stays (s ++ z ∷ []) ≡ true
      → p z ≡ false
      → trim p (s ++ z ∷ []) ≡ s ++ z ∷ []
  unfolding trim
  trim_ends s z h k =
      rw (drop_while-stays (s ++ z ∷ []) h, reverse-append s (z ∷ []))
        (ap reverse (drop_while-stays (z ∷ reverse s) (ap not k))
          ∙ ap reverse (sym (reverse-append s (z ∷ [])))
          ∙ reverse-reverse (s ++ z ∷ []))

  -- A text without the character c between two of them.
  pub trim_between :
      (c : ℕ) (s : Text) → p c ≡ true → any p s ≡ false → trim p (c ∷ (s ++ c ∷ [])) ≡ s
  unfolding trim drop_while
  trim_between c [] h k = ground (arith, h)
  trim_between c (a ∷ r) h k =
      let s : Text = a ∷ r in
      let front : drop_while p (c ∷ (s ++ c ∷ [])) ≡ s ++ c ∷ [] =
        drop_while-one c (s ++ c ∷ []) h (ground (arith, k)) in
      let back : drop_while p (c ∷ reverse s) ≡ reverse s =
        drop_while-one c (reverse s) h (free-stays (reverse s) (any-reverse s ∙ k)) in
      ap (λ t. reverse (drop_while p (reverse t))) front
      ∙ ap (λ t. reverse (drop_while p t)) (reverse-append s (c ∷ []))
      ∙ ap reverse back
      ∙ reverse-reverse s

module _ (sep : ℕ) where
  pub split_whole : (s : Text) → any (λ c. c == sep) s ≡ false → split sep s ≡ s ∷ []
  unfolding split
  split_whole [] h = refl
  split_whole (c ∷ s) h = ground (arith, h, split_whole s)

  -- A text without a separator is split off.
  pub split-line :
      (s rest : Text)
      → any (λ c. c == sep) s ≡ false
      → split sep (s ++ sep ∷ rest) ≡ s ∷ split sep rest
  unfolding split
  split-line [] rest h = ground (arith)
  split-line (c ∷ s) rest h = ground (arith, h, split-line s rest)
