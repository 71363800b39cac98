-- ===== src/Fiberx/Concurrency/Conditions.antt =====
-- A version that is sent as an entity tag and comes back as a condition (fiberx/concurrency.go).
use neokit.Base.{
  any, ℕ, ℤ, ◌∷◌, ◌≡◌, ◌++◌, ◌==◌, [], arith, some, true, false, ◌↔◌, refl, sym, ◌∙◌, ap,
}
use neokit.Fiberx.Concurrency.{
  is_quote, weak, etag_for_version, star, covers, any_covers, absent, check_if_match, parsed,
  if_match_version,
}
use neokit.Strconv.{in_range, atoi, itoa}
use neokit.Strconv.Printing.{of_int, atoi-itoa, itoa_free}
use neokit.Text.{Text, text_eq, text_eq_iff, is_space, trim, trim_space, trim_prefix, split}
use neokit.Text.Trimming.{any-append, trim_ends, trim_between, split_whole}

-- A header of one entry that no trimming changes.
One : Text → Text → Type 0
One header version =
    (trim_space header ≡ header)
    × (split b',' header ≡ header ∷ [])
    × (absent header ≡ false)
    × (text_eq header star ≡ false)
    × (trim is_quote (trim_prefix weak header) ≡ version)

read-One :
    (header version : Text)
    → One header version
    → if_match_version header ≡ (parsed (atoi version), true)
unfolding if_match_version One
read-One header version (a, b, c, d, e) = ground (arith, a, b, c, d, e)

check-One :
    (header version : Text) (v : ℤ)
    → One header version
    → check_if_match header v ≡ text_eq version (itoa v)
unfolding check_if_match any_covers covers One
check-One header version v (a, b, c, d, e) = ground (arith, a, b, c, d, e)

comma_free : (c : ℕ) → of_int c ≡ true → (c == b',') ≡ false
comma_free c h = ground (arith, h)

quote_free : (c : ℕ) → of_int c ≡ true → is_quote c ≡ false
quote_free c h = ground (arith, h)

quoted : Text → Text
quoted s = b'W' ∷ b'/' ∷ b'"' ∷ (s ++ b'"' ∷ [])

quoted-One : (s : Text) → any (λ c. c == b',') s ≡ false → any is_quote s ≡ false → One (quoted s) s
unfolding One quoted text_eq trim_prefix
quoted-One s h k = (
  trim_ends is_space (b'W' ∷ b'/' ∷ b'"' ∷ s) b'"' refl refl,
  split_whole b',' (quoted s) (ground (arith, any-append (λ c. c == b',') s (b'"' ∷ []), h)),
  refl,
  refl,
  trim_between is_quote b'"' s refl k,
)

etag_for_version-One : (v : ℤ) → One (etag_for_version v) (itoa v)
unfolding etag_for_version quoted
etag_for_version-One v =
    quoted-One (itoa v) (itoa_free (λ c. c == b',') v comma_free) (itoa_free is_quote v quote_free)

-- A version that is stamped on a response comes back from an If-Match header as that version, and the
-- write is conditional on it; and a check of that header against another version, or the same,
-- proceeds exactly if the versions are equal. Versions are ints of 64 bits.
pub if_match_version-etag_for_version :
    (v v' : ℤ)
    → in_range v ≡ some v
    → in_range v' ≡ some v'
    → (if_match_version (etag_for_version v) ≡ (v, true))
      × ((check_if_match (etag_for_version v) v' ≡ true) ↔ (v ≡ v'))
if_match_version-etag_for_version v v' h k = (
  read-One (etag_for_version v) (itoa v) (etag_for_version-One v)
      ∙ ap (λ o. (parsed o, true)) (atoi-itoa v h),
  (
    λ e. same_version v v' h k ((text_eq_iff (itoa v) (itoa v')).0 (sym (checked v v') ∙ e)),
    λ e. checked v v' ∙ (text_eq_iff (itoa v) (itoa v')).1 (ap itoa e),
  ),
)
  where
    checked : (v v' : ℤ) → check_if_match (etag_for_version v) v' ≡ text_eq (itoa v) (itoa v')
    checked v v' = check-One (etag_for_version v) (itoa v) v' (etag_for_version-One v)

    same_version :
        (v v' : ℤ) → in_range v ≡ some v → in_range v' ≡ some v' → itoa v ≡ itoa v' → v ≡ v'
    same_version v v' h k e = ground (arith, sym (atoi-itoa v h) ∙ ap atoi e ∙ atoi-itoa v' k)
