-- ===== src/Fiberauth/Sanitize.antt =====
-- Where a login may return to (oidcauth/fiberauth/cookies.go) and free text made safe for a log line
-- (oidcauth/fiberauth/handshake.go). Texts are code points; what Go counts in bytes is counted in the
-- bytes of their UTF-8 form. url.Parse is the parameter `parse_url`: the scheme and the host.
use neokit.Base.{
  Bool, List, Option, ℕ, ◌∷◌, ◌+◌, ◌++◌, [], false, if◌then◌else◌, true, ◌%◌, ◌==◌, ltb, not, some,
  ◌||◌, ◌&&◌, ◌/◌, length, none, take,
}
use neokit.Text.{Text, fields, join}

abbrev pub byte : ℕ → ℕ
byte c = 128 + c % 64

-- The UTF-8 form of a code point.
unfoldable pub utf8 : ℕ → List ℕ
utf8 c =
    if ltb c 128
    then c ∷ []
    else if ltb c 2048
    then (192 + c / 64) ∷ byte c ∷ []
    else if ltb c 65536
    then (224 + c / 4096) ∷ byte (c / 64) ∷ byte c ∷ []
    else (240 + c / 262144) ∷ byte (c / 4096) ∷ byte (c / 64) ∷ byte c ∷ []

unfoldable pub bytes : Text → List ℕ
bytes [] = []
bytes (c ∷ s) = utf8 c ++ bytes s

abbrev pub max_return_path : ℕ
max_return_path = 512

abbrev pub slash : Text
slash = 47 ∷ []

-- A single slash in front.
abbrev pub one_slash : Text → Bool
one_slash [] = false
one_slash (c ∷ []) = c == 47
one_slash (c ∷ d ∷ s) = c == 47 && not (d == 47)

-- Neither a backslash nor a control character anywhere.
unfoldable pub plain : Text → Bool
plain [] = true
plain (c ∷ s) = not (c == 92) && not (ltb c 32 || c == 127) && plain s

abbrev pub blank : Text → Bool
blank [] = true
blank (c ∷ s) = false

abbrev pub on_site : Option (Text × Text) → Bool
on_site none = false
on_site (some (scheme, host)) = blank scheme && blank host

-- SafeReturnPath
unfoldable pub safe_return_path : (Text → Option (Text × Text)) → Text → Text
unfolding plain bytes
safe_return_path parse_url raw =
    if blank raw || ltb max_return_path (length (bytes raw))
    then slash
    else if not (one_slash raw)
    then slash
    else if not (plain raw)
    then slash
    else if not (on_site (parse_url raw))
    then slash
    else raw

-- boundedDescription, as bytes: the cut may fall inside a code point.
unfoldable pub bounded_description : Text → List ℕ
bounded_description s =
    let out = bytes (join (32 ∷ []) (fields s)) in
    if ltb 200 (length out) then take 200 out else out
