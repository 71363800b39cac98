-- ===== src/Httpc/Client/Bounded.antt =====
-- The bounded read of a response (ReadAllLimited in httpc/client.go).
use neokit.Base.{
  List, pos, ℕ, ℤ, ◌<◌, ◌^◌, if◌then◌else◌, ◌+◌, ◌-◌, ◌==◌, ltb, ◌≡◌, ◌≢◌, length, negsuc, take, [],
  arith, none, refl, Option, some, Bool-cases, ◌⊎◌, inl, inr, length-take, take_whole,
}
use native.Mathlib.Decide.{dec_lt}
use neokit.Strconv.{wrap64, wrap64_small}
use neokit.Httpc.Client.{read_all_limited, max_response_bytes}

-- The bound of a read: 8 MiB where none is given.
abbrev pub bound_of : ℤ → ℕ
bound_of (pos n) = if n == 0 then max_response_bytes else n
bound_of (negsuc n) = max_response_bytes

fits :
    (bound : ℕ) (bytes : List ℕ)
    → (if ltb bound (length (take (bound + 1) bytes)) then none else some (take (bound + 1) bytes))
      ≡ (if ltb bound (length bytes) then none else some bytes)
fits bound bytes = elim (Bool-cases (ltb bound (length bytes))) [
  | inl t ↦ ground (arith, t, length-take bytes (bound + 1))
  | inr f ↦ ground (arith, f, take_whole bytes (bound + 1))
]

wrap64_greatest : wrap64 (pos (2 ^ 63 - 1 + 1)) ≡ negsuc (2 ^ 63 - 1)
unfolding wrap64
wrap64_greatest = refl

limited :
    (b : ℕ) (bytes : List ℕ)
    → b < 2 ^ 63
    → let read : List ℕ = elim (wrap64 (pos (b + 1))) [ pos n ↦ take n bytes | negsuc n ↦ [] ] in
      let out : Option (List ℕ) = if ltb b (length read) then none else some read in
      (b ≢ 2 ^ 63 - 1) × (out ≡ (if ltb b (length bytes) then none else some bytes))
      ⊎ (b ≡ 2 ^ 63 - 1) × (out ≡ some [])
limited b bytes h = elim (dec_lt (b + 1) (2 ^ 63)) [
  | yes k ↦ inl (omega (arith, k), rw (wrap64_small (b + 1) k) (fits b bytes))
  | no k ↦ let e : b ≡ 2 ^ 63 - 1 = omega (arith, h, k) in inr (e, rw (e, wrap64_greatest) refl)
]

-- A bounded read is all or nothing where the bound is below the greatest int64: it gives every byte
-- of a source that fits the bound, and fails on a longer one. With the greatest int64 as its bound
-- it gives no byte of any source, and no error.
pub read_all_limited_lem :
    (bytes : List ℕ) (max : ℤ)
    → bound_of max < 2 ^ 63
    → (bound_of max ≢ 2 ^ 63 - 1)
        × (read_all_limited bytes max
            ≡ (if ltb (bound_of max) (length bytes) then none else some bytes))
      ⊎ (bound_of max ≡ 2 ^ 63 - 1) × (read_all_limited bytes max ≡ some [])
unfolding read_all_limited
read_all_limited_lem bytes (pos n) h = limited (bound_of (pos n)) bytes h
read_all_limited_lem bytes (negsuc n) h = limited max_response_bytes bytes h
