-- ===== src/Vapid/Subject.antt =====
-- Generated keys are valid, and a subject is the same with and without its mailto: prefix.
use neokit.Base.{
  List, Option, ◌≡◌, Bool, none, true, ℕ, ◌++◌, refl, some, arith, length, ◌∷◌, [], false, take,
}
use mathlib.Core.Path.{ap₂}
use neokit.Text.{Text, trim, is_space, text_eq, text_eq_iff, trim_prefix, codes}
use neokit.Text.Trimming.{stays, trim_ends}
use neokit.Vapid.{
  Keys, Codec, public_key_len, private_key_len, generate_keys, validate, lower, has_prefix,
  normalize_subject,
}

text_eq_refl : (s : Text) → text_eq s s ≡ true
text_eq_refl s = (text_eq_iff s s).1 refl

-- A scalar of 32 bytes with a public key of 65 gives keys that Validate accepts, where base64 decodes
-- what it encoded.
pub validate-generate_keys :
    (c : Codec) (raw point : List ℕ)
    → ((b : List ℕ) → c.decode (c.encode b) ≡ some b)
    → length raw ≡ private_key_len
    → length point ≡ public_key_len
    → c.public_of raw ≡ some point
    → (k : Keys) × (generate_keys c (some raw) ≡ some k) × (validate c k ≡ none)
unfolding generate_keys validate
validate-generate_keys c raw point f h k e = (
  record { public = c.encode point; private = c.encode raw },
  rw (generate_keys, e) refl,
  rw (validate, f point, f raw, e, k, h, text_eq_refl (c.encode point)) refl,
)

validated :
    (c : Codec) (k : Keys)
    → validate c k ≡ none
    → (raw : List ℕ) × (point : List ℕ) × (c.decode k.private ≡ some raw)
      × (c.public_of raw ≡ some point)
      × (c.encode point ≡ k.public)
unfolding validate
validated c k h = go (c.decode k.public) (c.decode k.private) refl refl
  where
    Found : Type 0
    Found =
        (raw : List ℕ) × (point : List ℕ) × (c.decode k.private ≡ some raw)
        × (c.public_of raw ≡ some point)
        × (c.encode point ≡ k.public)

    derived :
        (raw : List ℕ) (o : Option (List ℕ))
        → c.decode k.private ≡ some raw
        → c.public_of raw ≡ o
        → Found
    derived raw none e f = ground (arith, h, e, f)
    derived raw (some point) e f =
        (raw, point, e, f, ground (arith, h, e, f, text_eq_iff (c.encode point) k.public))

    go : (o p : Option (List ℕ)) → c.decode k.public ≡ o → c.decode k.private ≡ p → Found
    go none p e f = ground (arith, h, e)
    go (some b) none e f = ground (arith, h, e, f)
    go (some b) (some raw) e f = derived raw (c.public_of raw) f refl

-- Keys that Validate accepts have the public key that their private key determines: two pairs with
-- the same private key are the same pair.
pub validate_unique :
    (c : Codec) (k l : Keys)
    → validate c k ≡ none
    → validate c l ≡ none
    → k.private ≡ l.private
    → k ≡ l
unfolding validate
validate_unique c k l h i e =
    let (raw, point, d, p, q) = validated c k h in
    let (raw', point', d', p', q') = validated c l i in
    let public : k.public ≡ l.public = ground (arith, d, p, q, d', p', q', e) in
    ap₂ (λ a b. record { public = a; private = b }) public e

-- An address has the same subject with and without a mailto: prefix.
pub normalize_subject-mailto :
    (host : Text → Option Text) (is_address : Text → Bool) (s : Text) (z : ℕ)
    → stays is_space (s ++ z ∷ []) ≡ true
    → is_space z ≡ false
    → has_prefix (codes "https:") (lower (s ++ z ∷ [])) ≡ false
    → has_prefix (codes "http:") (lower (s ++ z ∷ [])) ≡ false
    → has_prefix (codes "mailto:") (s ++ z ∷ []) ≡ false
    → normalize_subject host is_address (codes "mailto:" ++ s ++ z ∷ [])
      ≡ normalize_subject host is_address (s ++ z ∷ [])
unfolding normalize_subject trim_prefix
normalize_subject-mailto host is_address s z h k l m n =
    rw (added, whole, trim_ends is_space s z h k, l, m, n, not_blank s)
      (rw (trim_ends is_space s z h k) refl)
  where
    whole : take (length (codes "mailto:")) (codes "mailto:" ++ s ++ z ∷ []) ≡ codes "mailto:"
    whole = refl

    added : trim is_space (codes "mailto:" ++ s ++ z ∷ []) ≡ codes "mailto:" ++ s ++ z ∷ []
    added = trim_ends is_space (codes "mailto:" ++ s) z refl k

    not_blank : (s : Text) → text_eq (s ++ z ∷ []) [] ≡ false
    not_blank [] = refl
    not_blank (c ∷ s) = refl
