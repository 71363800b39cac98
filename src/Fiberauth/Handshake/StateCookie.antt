-- ===== src/Fiberauth/Handshake/StateCookie.antt =====
-- The handshake cookie (oidcauth/fiberauth/handshake.go).
use neokit.Base.{
  Bool, List, Option, ◌≡◌, not, some, true, ◌∷◌, ◌++◌, [], any, ◌==◌, arith, refl, ap, subst, ◌∙◌,
}
use neokit.Fiberauth.Handshake.{Base64, state_cookie_value, parse_state_cookie, decoded}
use neokit.Fiberauth.Sanitize.{safe_return_path, one_slash, plain}
use neokit.Fiberauth.Sanitized.{safe_return_path-Local}
use neokit.Oidcauth.{Handshake, valid}
use neokit.Text.{Text, split, join}

abbrev pub barless : Text → Bool
barless s = not (any (λ c. c == 124) s)

split_field :
    (a rest : Text) → barless a ≡ true → split 124 ((a ++ 124 ∷ []) ++ rest) ≡ a ∷ split 124 rest
unfolding split
split_field [] rest h = ground arith
split_field (c ∷ a) rest h = ground (arith, h, split_field a rest)

split_last : (a : Text) → barless a ≡ true → split 124 a ≡ a ∷ []
unfolding split
split_last [] h = refl
split_last (c ∷ a) h = ground (arith, h, split_last a)

join_four :
    (a b c d : Text)
    → join (124 ∷ []) (a ∷ b ∷ c ∷ d ∷ [])
      ≡ (a ++ 124 ∷ []) ++ ((b ++ 124 ∷ []) ++ ((c ++ 124 ∷ []) ++ d))
unfolding join
join_four a b c d = refl

split_four :
    (a b c d : Text)
    → barless a ≡ true
    → barless b ≡ true
    → barless c ≡ true
    → barless d ≡ true
    → split 124 (join (124 ∷ []) (a ∷ b ∷ c ∷ d ∷ [])) ≡ a ∷ b ∷ c ∷ d ∷ []
split_four a b c d h k l m =
    rw
      (
        join_four a b c d,
        split_field a ((b ++ 124 ∷ []) ++ ((c ++ 124 ∷ []) ++ d)) h,
        split_field b ((c ++ 124 ∷ []) ++ d) k,
        split_field c d l,
        split_last d m,
      )
      refl

module _ (b64 : Base64) (parse_url : Text → Option (Text × Text)) where
  safe_return_path-again :
      (raw : Text)
      → safe_return_path parse_url (safe_return_path parse_url raw) ≡ safe_return_path parse_url raw
  safe_return_path-again raw = let (a, b, c, d, e) = safe_return_path-Local parse_url raw in e

  reads :
      (raw path : Text) (hs : Handshake)
      → split 124 raw ≡ hs.state ∷ hs.nonce ∷ hs.verifier ∷ path ∷ []
      → valid hs ≡ true
      → parse_state_cookie b64 parse_url raw
        ≡ some (hs, safe_return_path parse_url (decoded b64 parse_url (b64.decode path)))
  unfolding parse_state_cookie
  reads raw path hs e v = ground (arith, e, v)

  -- What a login writes to the handshake cookie is what its callback reads: the three secrets, when
  -- they are present and without a bar, as base64url's are, and the return path that was let through.
  pub parse_state_cookie-state_cookie_value :
      (hs : Handshake) (next : Text)
      → valid hs ≡ true
      → barless hs.state ≡ true
      → barless hs.nonce ≡ true
      → barless hs.verifier ≡ true
      → parse_state_cookie b64 parse_url (state_cookie_value b64 parse_url hs next)
        ≡ some (hs, safe_return_path parse_url next)
  unfolding state_cookie_value
  parse_state_cookie-state_cookie_value hs next v a b c =
      let path = safe_return_path parse_url next in
      let fields = hs.state ∷ hs.nonce ∷ hs.verifier ∷ b64.encode path ∷ [] in
      reads (join (124 ∷ []) fields) (b64.encode path) hs
        (split_four hs.state hs.nonce hs.verifier (b64.encode path) a b c
          (ap not (b64.encode-barless path)))
        v
      ∙ ap (λ t. some (hs, safe_return_path parse_url (decoded b64 parse_url t)))
          (b64.decode-encode path)
      ∙ ap (λ t. some (hs, t)) (safe_return_path-again next)

  -- Whatever the browser sends, a handshake that is read has its three secrets, and its return path
  -- is one on this site.
  pub parse_state_cookie-Safe :
      (raw next : Text) (hs : Handshake)
      → parse_state_cookie b64 parse_url raw ≡ some (hs, next)
      → (valid hs ≡ true)
        × (one_slash next ≡ true)
        × (plain next ≡ true)
        × (safe_return_path parse_url next ≡ next)
  unfolding parse_state_cookie
  parse_state_cookie-Safe raw next hs h =
      let (v, k) = step (split 124 raw) refl in (v, k.0, k.1, k.2)
    where
      Safe : Text → Type 0
      Safe path =
          (one_slash path ≡ true) × (plain path ≡ true) × (safe_return_path parse_url path ≡ path)

      let_through : (path : Text) → Safe (safe_return_path parse_url path)
      let_through path = let (a, b, c, d, e) = safe_return_path-Local parse_url path in (a, b, e)

      finish :
          (path : Text)
          → (valid hs ≡ true) × (safe_return_path parse_url path ≡ next)
          → (valid hs ≡ true) × Safe next
      finish path (v, e) = (v, subst Safe e (let_through path))

      step : (parts : List Text) → split 124 raw ≡ parts → (valid hs ≡ true) × Safe next
      step [] e = ground (arith, h, e)
      step (a ∷ []) e = ground (arith, h, e)
      step (a ∷ b ∷ []) e = ground (arith, h, e)
      step (a ∷ b ∷ c ∷ []) e = ground (arith, h, e)
      step (a ∷ b ∷ c ∷ d ∷ []) e =
          finish (decoded b64 parse_url (b64.decode d)) (ground (arith, h, e))
      step (a ∷ b ∷ c ∷ d ∷ x ∷ xs) e = ground (arith, h, e)
