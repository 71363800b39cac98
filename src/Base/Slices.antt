-- ===== src/Base/Slices.antt =====
-- Slices of a list: an assignment to one index, prefixes and suffixes, and the last elements.
use Prim.Native.Nat.{ℕ, zero, suc, ◌-◌, ◌≤◌, ◌<◌}
use mathlib.Core.Path.{◌≡◌, refl, sym, ap, ◌∙◌}
use mathlib.Core.List.{List, [], ◌∷◌, ◌++◌}
use native.Mathlib.Decide.{dec_le}
use native.Mathlib.Omega.{arith}
use neokit.Base.Lists.{length, take, drop, length-append, length-drop}

module _ {ℓ} {A : Type ℓ} where
  -- An assignment xs[i] = e.
  abbrev pub set : List A → ℕ → A → List A
  set [] i e = []
  set (x ∷ xs) zero e = e ∷ xs
  set (x ∷ xs) (suc i) e = x ∷ set xs i e

  pub length-set : (xs : List A) (i : ℕ) (e : A) → length (set xs i e) ≡ length xs
  length-set [] i e = refl
  length-set (x ∷ xs) zero e = refl
  length-set (x ∷ xs) (suc i) e = ap suc (length-set xs i e)

  pub take-set :
      (xs : List A) (i : ℕ) (e : A)
      → i < length xs
      → take (suc i) (set xs i e) ≡ take i xs ++ e ∷ []
  take-set [] i e h = ground arith
  take-set (x ∷ xs) zero e h = refl
  take-set (x ∷ xs) (suc i) e h = ap (λ l. x ∷ l) (take-set xs i e (omega arith))

  pub drop-set : (xs : List A) (i : ℕ) (e : A) → drop (suc i) (set xs i e) ≡ drop (suc i) xs
  drop-set [] i e = refl
  drop-set (x ∷ xs) zero e = refl
  drop-set (x ∷ xs) (suc i) e = drop-set xs i e

  pub take_whole : (xs : List A) (n : ℕ) → length xs ≤ n → take n xs ≡ xs
  take_whole [] zero h = refl
  take_whole [] (suc n) h = refl
  take_whole (x ∷ xs) zero h = ground arith
  take_whole (x ∷ xs) (suc n) h = ap (λ l. x ∷ l) (take_whole xs n (omega arith))

  pub drop_whole : (xs : List A) (n : ℕ) → length xs ≤ n → drop n xs ≡ []
  drop_whole [] zero h = refl
  drop_whole [] (suc n) h = refl
  drop_whole (x ∷ xs) zero h = ground arith
  drop_whole (x ∷ xs) (suc n) h = drop_whole xs n (omega arith)

  pub length-take : (xs : List A) (n : ℕ) → n ≤ length xs → length (take n xs) ≡ n
  length-take xs zero h = refl
  length-take [] (suc n) h = ground arith
  length-take (x ∷ xs) (suc n) h = ap suc (length-take xs n (omega arith))

  pub drop-append : (xs ys : List A) (n : ℕ) → n ≤ length xs → drop n (xs ++ ys) ≡ drop n xs ++ ys
  drop-append xs ys zero h = refl
  drop-append [] ys (suc n) h = ground arith
  drop-append (x ∷ xs) ys (suc n) h = drop-append xs ys n (omega arith)

  pub drop-drop : (xs : List A) (n : ℕ) → drop 1 (drop n xs) ≡ drop (suc n) xs
  drop-drop xs zero = refl
  drop-drop [] (suc n) = refl
  drop-drop (x ∷ xs) (suc n) = drop-drop xs n

  -- The last `n` elements.
  unfoldable pub last : ℕ → List A → List A
  last n xs = drop (length xs - n) xs

  pub last_whole : (n : ℕ) (xs : List A) → length xs ≤ n → last n xs ≡ xs
  unfolding last
  last_whole n xs h = ap (λ k. drop k xs) {y = 0} (omega arith)

  pub length-last : (n : ℕ) (xs : List A) → n ≤ length xs → length (last n xs) ≡ n
  unfolding last
  length-last n xs h = omega (arith, length-drop (length xs - n) xs)

  -- A further element moves a full window by one.
  pub last-snoc :
      (n : ℕ) (xs : List A) (x : A)
      → 0 < n
      → n ≤ length xs
      → last n (xs ++ x ∷ []) ≡ drop 1 (last n xs) ++ x ∷ []
  unfolding last
  last-snoc n xs x h k =
      ap (λ k. drop k (xs ++ x ∷ [])) {y = suc (length xs - n)}
        (omega (arith, length-append xs (x ∷ [])))
      ∙ drop-append xs (x ∷ []) (suc (length xs - n)) (omega arith)
      ∙ ap (λ l. l ++ x ∷ []) (sym (drop-drop xs (length xs - n)))

  pub length-last_le : (n : ℕ) (xs : List A) → length (last n xs) ≤ n
  unfolding last
  length-last_le n xs = omega (arith, length-drop (length xs - n) xs)

  -- To cut before the further element is to cut behind it.
  pub last-last_snoc :
      (n : ℕ) (xs : List A) (x : A) → 0 < n → last n (last n xs ++ x ∷ []) ≡ last n (xs ++ x ∷ [])
  last-last_snoc n xs x h = elim (dec_le n (length xs)) [
    | yes k ↦
        last-snoc n (last n xs) x h (omega (arith, length-last n xs k))
        ∙ ap (λ l. drop 1 l ++ x ∷ []) (last_whole n (last n xs) (length-last_le n xs))
        ∙ sym (last-snoc n xs x h k)
    | no k ↦ ap (λ l. last n (l ++ x ∷ [])) (last_whole n xs (omega (arith, k)))
  ]
