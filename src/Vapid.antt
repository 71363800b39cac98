-- ===== src/Vapid.antt =====
-- webpush/vapid.go: VAPID keys and the subject of a VAPID token. base64url, the P-256 arithmetic of
-- crypto/ecdh, net/url and net/mail are arguments.
pub mod Subject
use neokit.Base.{
  Bool, List, Option, ℕ, none, some, take, ◌⊎◌, ◌∷◌, if◌then◌else◌, length, [], leb, not, ◌&&◌,
  ◌==◌, inl, ◌+◌, inr,
}
use neokit.Text.{Text, trim, is_space, text_eq, trim_prefix, codes}

pub record Keys : Type 0 where
  pub public : Text
  pub private : Text

abbrev pub public_key_len : ℕ
public_key_len = 65

abbrev pub private_key_len : ℕ
private_key_len = 32

-- What ErrInvalidKey is wrapped with.
pub data KeyError : Type 0 where
  bad_public bad_private bad_scalar not_derived : KeyError

-- base64.RawURLEncoding, and ecdh.P256: of a scalar's bytes the public key's, none where NewPrivateKey
-- refuses them.
pub record Codec : Type 0 where
  pub encode : List ℕ → Text
  pub decode : Text → Option (List ℕ)
  pub public_of : List ℕ → Option (List ℕ)

-- GenerateKeys, of the scalar that the random source gives; none is its error.
unfoldable pub generate_keys : Codec → Option (List ℕ) → Option Keys
generate_keys c none = none
generate_keys c (some raw) = elim (c.public_of raw) [
  | none ↦ none
  | some point ↦ some (record { public = c.encode point; private = c.encode raw })
]

-- Keys.Validate
unfoldable pub validate : Codec → Keys → Option KeyError
validate c k = elim (c.decode k.public) [
  | none ↦ some bad_public
  | some key ↦
      if not (length key == public_key_len) then some bad_public else elim (c.decode k.private) [
        | none ↦ some bad_private
        | some raw ↦
            if not (length raw == private_key_len)
            then some bad_private
            else elim (c.public_of raw) [
              | none ↦ some bad_scalar
              | some point ↦ if text_eq (c.encode point) k.public then none else some not_derived
            ]
      ]
]

-- strings.ToLower on ASCII; no other letter's lower case stands in the prefixes that are looked for.
abbrev pub lower : Text → Text
lower [] = []
lower (c ∷ s) = (if leb 65 c && leb c 90 then c + 32 else c) ∷ lower s

abbrev pub has_prefix : Text → Text → Bool
has_prefix p s = text_eq (take (length p) s) p

pub data SubjectError : Type 0 where
  empty_subject bad_url not_https no_contact : SubjectError

-- NormalizeSubject; `host` is the host of a URL, none where it does not parse, and `is_address`
-- whether mail.ParseAddress accepts a text.
unfoldable pub normalize_subject : (Text → Option Text) → (Text → Bool) → Text → SubjectError ⊎ Text
normalize_subject host is_address subject =
    let s : Text = trim is_space subject in
    let bare : Text = trim is_space (trim_prefix (codes "mailto:") s) in
    if text_eq s []
    then inl empty_subject
    else if has_prefix (codes "https:") (lower s)
    then elim (host s) [ none ↦ inl bad_url | some [] ↦ inl bad_url | some (c ∷ h) ↦ inr s ]
    else if has_prefix (codes "http:") (lower s)
    then inl not_https
    else if is_address bare
    then inr bare
    else inl no_contact
