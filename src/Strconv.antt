-- ===== src/Strconv.antt =====
-- What the packages use of Go's strconv and of its 64-bit integers, on texts of code points.
pub mod Printing
use native.Mathlib.Nat.{mod-eq_of_lt}
use neokit.Base.{
  ℕ, ◌+◌, ◌-◌, ◌*◌, ◌^◌, ◌%◌, ℤ, pos, negsuc, ltb, leb, Bool, ◌==◌, ◌&&◌, Option, some, none, [],
  ◌∷◌, if◌then◌else◌, suc, ◌/◌, zero, ◌<◌, ◌≡◌, arith,
}
use neokit.Text.{Text}

-- What an operation on int64 leaves of an integer.
unfoldable pub wrap64 : ℤ → ℤ
wrap64 (pos n) = let m = n % 2 ^ 64 in if ltb m (2 ^ 63) then pos m else negsuc (2 ^ 64 - 1 - m)
wrap64 (negsuc n) = let m = n % 2 ^ 64 in if ltb m (2 ^ 63) then negsuc m else pos (2 ^ 64 - 1 - m)

pub wrap64_small : (n : ℕ) → n < 2 ^ 63 → wrap64 (pos n) ≡ pos n
unfolding wrap64
wrap64_small n h = rw (mod-eq_of_lt {n = n} {m = 2 ^ 64} (omega (arith, h))) ground (arith, h)

abbrev pub is_digit : ℕ → Bool
is_digit c = leb b'0' c && leb c b'9'

-- The value of a text of digits, on from the value of those before it.
unfoldable pub digits : ℕ → Text → Option ℕ
digits n [] = some n
digits n (c ∷ s) = let rest = digits (n * 10 + (c - b'0')) s in if is_digit c then rest else none

-- A text of at least one digit.
unfoldable pub natural : Text → Option ℕ
unfolding digits
natural [] = none
natural (c ∷ s) = digits 0 (c ∷ s)

abbrev pub in_range : ℤ → Option ℤ
in_range (pos n) = if ltb n (2 ^ 63) then some (pos n) else none
in_range (negsuc n) = if ltb n (2 ^ 63) then some (negsuc n) else none

abbrev pub negated : ℕ → ℤ
negated n = if n == 0 then pos 0 else negsuc (n - 1)

-- strconv.Atoi
unfoldable pub atoi : Text → Option ℤ
unfolding natural
atoi [] = none
atoi (c ∷ s) =
    if c == b'-'
    then elim (natural s) [ none ↦ none | some n ↦ in_range (negated n) ]
    else if c == b'+'
    then elim (natural s) [ none ↦ none | some n ↦ in_range (pos n) ]
    else elim (natural (c ∷ s)) [ none ↦ none | some n ↦ in_range (pos n) ]

-- The digits of a number before a text, with fuel for as many of them.
unfoldable pub print : ℕ → ℕ → Text → Text
print zero n rest = rest
print (suc fuel) n rest =
    let more = print fuel (n / 10) ((b'0' + n % 10) ∷ rest) in
    if ltb n 10 then (b'0' + n) ∷ rest else more

-- strconv.Itoa; a number has no more digits than the number after it.
unfoldable pub itoa : ℤ → Text
unfolding print
itoa (pos n) = print (suc n) n []
itoa (negsuc n) = b'-' ∷ print (suc (suc n)) (suc n) []
