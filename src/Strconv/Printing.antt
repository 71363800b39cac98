-- ===== src/Strconv/Printing.antt =====
-- What is printed is what is read (strconv).
use neokit.Base.{
  Bool, ℕ, ℤ, ◌≡◌, ◌<◌, false, some, suc, true, ◌||◌, ◌==◌, Bool-cases, [], any, arith, pos, ◌∷◌,
  ◌&&◌, ltb, negsuc, refl, ◌∙◌, inl, inr, ◌/◌, ◌+◌, ◌%◌, zero, ap,
}
use neokit.Strconv.{is_digit, digits, natural, in_range, negated, atoi, print, itoa}
use neokit.Text.{Text}

-- Enough fuel prints a number whose value is read back, on from zero, before what follows.
digits-print : (fuel n : ℕ) (rest : Text) → n < fuel → digits 0 (print fuel n rest) ≡ digits n rest
unfolding digits print
digits-print zero n rest h = ground (arith, h)
digits-print (suc fuel) n rest h = elim (Bool-cases (ltb n 10)) [
  | inl e ↦ ground (arith, e)
  | inr e ↦ ground (arith, e, digits-print fuel (n / 10) ((b'0' + n % 10) ∷ rest))
]

-- A digit in front.
abbrev pub digit_first : Text → Bool
digit_first [] = false
digit_first (c ∷ s) = is_digit c

print_first : (fuel n : ℕ) (rest : Text) → n < fuel → digit_first (print fuel n rest) ≡ true
unfolding print
print_first zero n rest h = ground (arith, h)
print_first (suc fuel) n rest h = elim (Bool-cases (ltb n 10)) [
  | inl e ↦ ground (arith, e)
  | inr e ↦ ground (arith, e, print_first fuel (n / 10) ((b'0' + n % 10) ∷ rest))
]

abbrev all_digits : Text → Bool
all_digits [] = true
all_digits (c ∷ s) = is_digit c && all_digits s

print_all :
    (fuel n : ℕ) (rest : Text) → all_digits rest ≡ true → all_digits (print fuel n rest) ≡ true
unfolding print
print_all zero n rest h = h
print_all (suc fuel) n rest h = elim (Bool-cases (ltb n 10)) [
  | inl e ↦ ground (arith, e, h)
  | inr e ↦ ground (arith, e, h, print_all fuel (n / 10) ((b'0' + n % 10) ∷ rest))
]

natural_read : (s : Text) → digit_first s ≡ true → natural s ≡ digits 0 s
unfolding natural
natural_read [] h = ground (arith, h)
natural_read (c ∷ s) h = refl

digits_nil : (n : ℕ) → digits n [] ≡ some n
unfolding digits
digits_nil n = refl

natural-print : (n : ℕ) → natural (print (suc n) n []) ≡ some n
natural-print n =
    natural_read (print (suc n) n []) (print_first (suc n) n [] (omega arith))
    ∙ digits-print (suc n) n [] (omega arith)
    ∙ digits_nil n

atoi_digit :
    (s : Text) (n : ℕ) → digit_first s ≡ true → natural s ≡ some n → atoi s ≡ in_range (pos n)
unfolding atoi
atoi_digit [] n h k = ground (arith, h)
atoi_digit (c ∷ s) n h k = ground (arith, h, k)

negated-suc : (n : ℕ) → negated (suc n) ≡ negsuc n
negated-suc n = ground arith

-- An int that is printed is read back.
pub atoi-itoa : (v : ℤ) → in_range v ≡ some v → atoi (itoa v) ≡ some v
unfolding itoa atoi
atoi-itoa (pos n) h =
    atoi_digit (print (suc n) n []) n (print_first (suc n) n [] (omega arith)) (natural-print n) ∙ h
atoi-itoa (negsuc n) h = rw (natural-print (suc n)) (ap in_range (negated-suc n) ∙ h)

-- The characters of a printed int.
abbrev pub of_int : ℕ → Bool
of_int c = is_digit c || c == b'-'

digits_of_int :
    (p : ℕ → Bool) (s : Text)
    → ((c : ℕ) → of_int c ≡ true → p c ≡ false)
    → all_digits s ≡ true
    → any p s ≡ false
digits_of_int p [] h k = refl
digits_of_int p (c ∷ s) h k = ground (arith, h c, k, digits_of_int p s h)

-- No character of a printed int is one that neither a digit nor the sign is.
pub itoa_free :
    (p : ℕ → Bool) (v : ℤ) → ((c : ℕ) → of_int c ≡ true → p c ≡ false) → any p (itoa v) ≡ false
unfolding itoa
itoa_free p (pos n) h = digits_of_int p (print (suc n) n []) h (print_all (suc n) n [] refl)
itoa_free p (negsuc n) h =
    let rest =
      digits_of_int p (print (suc (suc n)) (suc n) []) h
        (print_all (suc (suc n)) (suc n) [] refl) in
    ground (arith, h b'-' refl, rest)
