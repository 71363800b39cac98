-- ===== src/Fiberx/Etag/Tags.antt =====
-- A tag that comes back in If-None-Match is matched, and the parts of a key are told apart.
use mathlib.Core.List.{append_assoc}
use neokit.Base.{
  ℕ, List, All, any, ◌==◌, ◌≡◌, false, ◌∷◌, [], ◌++◌, Bool, arith, refl, take, ◌∙◌, ◌/◌, ap, true,
  ◌%◌, All-append, none, sym,
}
use neokit.Text.{Text, split, join, text_eq, text_eq_iff, is_space, trim, trim_prefix}
use neokit.Text.Trimming.{split_whole, split-line, any-append, trim_ends}
use neokit.Fiberx.Concurrency.{any_matches, absent, etag_matches, weak}
use neokit.Fiberx.Etag.{hex_digit, hex, etag, send_with_etag}

-- A list of texts without a separator is what its join is split into.
pub split-join :
    (sep : ℕ) (parts : List Text) (p : Text)
    → All (λ t. any (λ c. c == sep) t ≡ false) (p ∷ parts)
    → split sep (join (sep ∷ []) (p ∷ parts)) ≡ p ∷ parts
unfolding join
split-join sep [] p h = split_whole sep p h.0
split-join sep (q ∷ parts) p h =
    ap (split sep) (append_assoc p (sep ∷ []) (join (sep ∷ []) (q ∷ parts)))
    ∙ split-line sep p (join (sep ∷ []) (q ∷ parts)) h.0
    ∙ ap (λ l. p ∷ l) (split-join sep parts q h.1)

abbrev comma : ℕ → Bool
comma c = c == b','

digit_free : (n : ℕ) → comma (hex_digit n) ≡ false
digit_free n = ground (arith)

hex_free : (bs : List ℕ) → any comma (hex bs) ≡ false
unfolding hex
hex_free [] = refl
hex_free (b ∷ bs) = ground (arith, digit_free (b / 16), digit_free (b % 16), hex_free bs)

etag_free : (sum : List ℕ) → any comma (etag sum) ≡ false
unfolding etag
etag_free sum =
    any-append comma (hex (take 16 sum)) (b'"' ∷ []) ∙ ground (arith, hex_free (take 16 sum))

trim-etag : (sum : List ℕ) → trim is_space (etag sum) ≡ etag sum
unfolding etag
trim-etag sum = trim_ends is_space (b'"' ∷ hex (take 16 sum)) b'"' refl refl

trim_prefix-etag : (sum : List ℕ) → trim_prefix weak (etag sum) ≡ etag sum
unfolding etag trim_prefix text_eq
trim_prefix-etag sum = refl

present : (sum : List ℕ) → absent (etag sum) ≡ false
unfolding etag
present sum = refl

any_matches-etag :
    (sum : List ℕ) (before after : List Text)
    → any_matches (etag sum) (before ++ etag sum ∷ after) ≡ true
unfolding any_matches
any_matches-etag sum [] after =
    rw (trim-etag sum, trim_prefix-etag sum)
      (ground (arith, present sum, (text_eq_iff (etag sum) (etag sum)).1 refl))
any_matches-etag sum (b ∷ before) after = ground (arith, any_matches-etag sum before after)

-- Parts without the separator that are hashed for one key are the same parts.
pub join_parts :
    (parts others : List Text) (p q : Text)
    → All (λ t. any (λ c. c == 0) t ≡ false) (p ∷ parts)
    → All (λ t. any (λ c. c == 0) t ≡ false) (q ∷ others)
    → join (0 ∷ []) (p ∷ parts) ≡ join (0 ∷ []) (q ∷ others)
    → Path (List Text) (p ∷ parts) (q ∷ others)
join_parts parts others p q h k e =
    sym (split-join 0 parts p h) ∙ ap (split 0) e ∙ split-join 0 others q k

etag_matches-own :
    (sum : List ℕ) (before after : List Text)
    → All (λ t. any comma t ≡ false) before
    → All (λ t. any comma t ≡ false) after
    → etag_matches (join (b',' ∷ []) (before ++ etag sum ∷ after)) (etag sum) ≡ true
unfolding etag_matches
etag_matches-own sum [] after h k =
    ap (any_matches (etag sum)) (split-join b',' after (etag sum) (etag_free sum, k))
    ∙ any_matches-etag sum [] after
etag_matches-own sum (b ∷ before) after h k =
    ap (any_matches (etag sum)) (
      split-join b',' (before ++ etag sum ∷ after) b (
        h.0,
        All-append (λ t. any comma t ≡ false) before (etag sum ∷ after) h.1 (etag_free sum, k),
      ))
    ∙ any_matches-etag sum (b ∷ before) after

-- Where the tag of a digest is one of the entries of If-None-Match, between commas that no other
-- entry holds, the answer is a 304 without the body, and it carries the tag and the cache policy.
pub send_with_etag_listed :
    (sum : List ℕ) (before after : List Text) (cache_control content_type : Text) (body : List ℕ)
    → All (λ t. any comma t ≡ false) before
    → All (λ t. any comma t ≡ false) after
    → send_with_etag
        (join (b',' ∷ []) (before ++ etag sum ∷ after))
        (etag sum)
        cache_control
        content_type
        body
      ≡ record {
        status = 304;
        tag = etag sum;
        cache_control = cache_control;
        content_type = none;
        body = [];
      }
unfolding send_with_etag
send_with_etag_listed sum before after cache_control content_type body h k =
    ground (arith, etag_matches-own sum before after h k)
