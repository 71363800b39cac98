-- ===== src/Fiberauth/Sanitized.antt =====
-- What a return path and a line of free text can hold (oidcauth/fiberauth/cookies.go,
-- oidcauth/fiberauth/handshake.go).
use neokit.Base.{
  Option, length, ℕ, Bool, ◌≡◌, ◌≤◌, any, leb, true, ◌&&◌, false, ◌⊎◌, List, arith, inl, ◌∷◌, ◌++◌,
  Bool-cases, [], not, subst, take, inr, ltb, refl, suc, sym, ◌||◌, zero,
}
use neokit.Fiberauth.Sanitize.{
  utf8, bytes, max_return_path, slash, one_slash, plain, on_site, safe_return_path,
  bounded_description,
}
use neokit.Text.{Text, fields, join, push, starts_field, is_space}

module _ (parse_url : Text → Option (Text × Text)) where
  abbrev Kept : Text → Type 0
  Kept raw =
      (one_slash raw ≡ true)
      × (plain raw ≡ true)
      × (length (bytes raw) ≤ max_return_path)
      × (on_site (parse_url raw) ≡ true)

  safe_return_path-cases :
      (raw : Text)
      → (safe_return_path parse_url raw ≡ slash)
        ⊎ ((safe_return_path parse_url raw ≡ raw) × Kept raw)
  unfolding safe_return_path
  safe_return_path-cases raw = ground arith

  safe_return_path-slash : safe_return_path parse_url slash ≡ slash
  unfolding safe_return_path
  safe_return_path-slash = ground arith

  -- A return path is one the guard trusts or the root: it starts with a single slash, holds neither a
  -- backslash nor a control character, has at most 512 bytes, and is the path asked for or the root.
  -- The path asked for is kept only if it parses with neither a scheme nor a host, and a path that
  -- was let through is let through unchanged again.
  pub safe_return_path-Local :
      (raw : Text)
      → let path = safe_return_path parse_url raw in
        (one_slash path ≡ true)
        × (plain path ≡ true)
        × (length (bytes path) ≤ max_return_path)
        × ((path ≡ slash) ⊎ ((path ≡ raw) × (on_site (parse_url raw) ≡ true)))
        × (safe_return_path parse_url path ≡ path)
  unfolding plain bytes utf8
  safe_return_path-Local raw = step (safe_return_path-cases raw)
    where
      Local : Text → Type 0
      Local path =
          (one_slash path ≡ true)
          × (plain path ≡ true)
          × (length (bytes path) ≤ max_return_path)
          × ((path ≡ slash) ⊎ ((path ≡ raw) × (on_site (parse_url raw) ≡ true)))
          × (safe_return_path parse_url path ≡ path)

      step :
          (safe_return_path parse_url raw ≡ slash)
            ⊎ ((safe_return_path parse_url raw ≡ raw) × Kept raw)
          → Local (safe_return_path parse_url raw)
      step (inl e) =
          subst Local (sym e) (refl, refl, ground arith, inl refl, safe_return_path-slash)
      step (inr (e, (a, b, c, d))) = subst Local (sym e) (a, b, c, inr (refl, d), e)

-- The bytes 9 to 13 are the ones that break a line or move in it.
abbrev pub breaks : ℕ → Bool
breaks b = leb 9 b && leb b 13

any-append : (xs ys : List ℕ) → any breaks (xs ++ ys) ≡ (any breaks xs || any breaks ys)
any-append [] ys = refl
any-append (x ∷ xs) ys = ground (arith, any-append xs ys)

any-take : (n : ℕ) (xs : List ℕ) → any breaks xs ≡ false → any breaks (take n xs) ≡ false
any-take zero xs h = refl
any-take (suc n) [] h = refl
any-take (suc n) (x ∷ xs) h = ground (arith, any-take n xs, h)

length-take : (n : ℕ) (xs : List ℕ) → length (take n xs) ≤ n
length-take zero xs = ground arith
length-take (suc n) [] = ground arith
length-take (suc n) (x ∷ xs) = ground (arith, length-take n xs)

utf8-breaks : (c : ℕ) → breaks c ≡ false → any breaks (utf8 c) ≡ false
unfolding utf8
utf8-breaks c h = ground (arith, h)

bytes-breaks : (s : Text) → any breaks s ≡ false → any breaks (bytes s) ≡ false
unfolding bytes
bytes-breaks [] h = refl
bytes-breaks (c ∷ s) h =
    ground (arith, any-append (utf8 c) (bytes s), utf8-breaks c, bytes-breaks s, h)

-- No field holds a space, so none holds a line break.
abbrev no_breaks : List Text → Bool
no_breaks [] = true
no_breaks (f ∷ fs) = not (any breaks f) && no_breaks fs

push-breaks :
    (c : ℕ) (fs : List Text) → breaks c ≡ false → no_breaks fs ≡ true → no_breaks (push c fs) ≡ true
push-breaks c [] h k = ground (arith, h)
push-breaks c (f ∷ fs) h k = ground (arith, h, k)

space : (c : ℕ) → is_space c ≡ false → breaks c ≡ false
space c h = ground (arith, h)

fields-breaks : (s : Text) → no_breaks (fields s) ≡ true
unfolding fields
fields-breaks [] = refl
fields-breaks (c ∷ s) = elim (Bool-cases (is_space c)) [
  | inl e ↦ rw e (fields-breaks s)
  | inr e ↦ rw e (elim (Bool-cases (starts_field s)) [
    | inl k ↦ rw k (push-breaks c (fields s) (space c e) (fields-breaks s))
    | inr k ↦ rw k (ground (arith, space c e, fields-breaks s))
  ])
]

join-breaks : (fs : List Text) → no_breaks fs ≡ true → any breaks (join (32 ∷ []) fs) ≡ false
unfolding join
join-breaks [] h = refl
join-breaks (f ∷ []) h = ground (arith, h)
join-breaks (f ∷ g ∷ fs) h = ground (
  arith,
  h,
  any-append (f ++ 32 ∷ []) (join (32 ∷ []) (g ∷ fs)),
  any-append f (32 ∷ []),
  join-breaks (g ∷ fs),
)

-- Provider-controlled text is cut to 200 bytes, and none of the bytes that it leaves breaks a line or
-- moves in it, so that it cannot forge a log entry with one.
pub bounded_description-Line :
    (s : Text) → let line = bounded_description s in (length line ≤ 200) × (any breaks line ≡ false)
unfolding bounded_description
bounded_description-Line s =
    let line = bytes (join (32 ∷ []) (fields s)) in
    let clean =
      bytes-breaks (join (32 ∷ []) (fields s)) (join-breaks (fields s) (fields-breaks s)) in
    elim (Bool-cases (ltb 200 (length line))) [
      | inl e ↦ rw e (length-take 200 line, any-take 200 line clean)
      | inr e ↦ rw e (ground (arith, e), clean)
    ]
