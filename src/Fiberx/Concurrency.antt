-- ===== src/Fiberx/Concurrency.antt =====
-- fiberx/concurrency.go and fiberx/etag.go: versions as entity tags, and the conditions that a client
-- puts on a request. A header is its text, which is empty when it is absent.
pub mod Conditions
use neokit.Base.{
  Bool, List, Option, ℕ, ℤ, ◌==◌, false, if◌then◌else◌, negsuc, true, ◌||◌, ◌∷◌, ◌++◌, [], pos,
  some, none,
}
use neokit.Strconv.{atoi, itoa}
use neokit.Text.{Text, codes, text_eq, trim, trim_space, trim_prefix, split}

abbrev pub is_quote : ℕ → Bool
is_quote c = c == b'"'

abbrev pub weak : Text
weak = codes "W/"

-- ETagForVersion
unfoldable pub etag_for_version : ℤ → Text
unfolding itoa
etag_for_version version = b'W' ∷ b'/' ∷ b'"' ∷ (itoa version ++ b'"' ∷ [])

abbrev pub star : Text
star = codes "*"

-- Whether one entry of an If-Match header covers a version as it is printed.
unfoldable pub covers : Text → Text → Bool
unfolding trim_prefix trim
covers want cand =
    let entry = trim_space cand in
    text_eq entry star || text_eq (trim is_quote (trim_prefix weak entry)) want

unfoldable pub any_covers : Text → List Text → Bool
unfolding covers
any_covers want [] = false
any_covers want (cand ∷ cands) = covers want cand || any_covers want cands

abbrev pub absent : Text → Bool
absent [] = true
absent (c ∷ s) = false

-- CheckIfMatch: whether the request proceeds, or is refused with 412.
unfoldable pub check_if_match : Text → ℤ → Bool
unfolding any_covers
check_if_match header version =
    let trimmed = trim_space header in
    if absent trimmed then true else any_covers (itoa version) (split b',' trimmed)

abbrev pub first_of : List Text → Text
first_of [] = []
first_of (s ∷ rest) = s

abbrev pub parsed : Option ℤ → ℤ
parsed none = negsuc 0
parsed (some v) = v

-- IfMatchVersion: the version that a write must match, if it is conditional.
unfoldable pub if_match_version : Text → ℤ × Bool
unfolding trim trim_prefix
if_match_version header =
    let trimmed = trim_space header in
    let first = trim_space (first_of (split b',' trimmed)) in
    if absent trimmed
    then (pos 0, false)
    else if text_eq first star
    then (pos 0, false)
    else (parsed (atoi (trim is_quote (trim_prefix weak first))), true)

unfoldable pub any_matches : Text → List Text → Bool
any_matches etag [] = false
any_matches etag (cand ∷ cands) =
    let entry = trim_space cand in
    let rest = any_matches etag cands in
    if absent entry
    then rest
    else text_eq entry star || text_eq (trim_prefix weak entry) etag || rest

-- ETagMatches
unfoldable pub etag_matches : Text → Text → Bool
unfolding any_matches
etag_matches header etag = any_matches etag (split b',' header)
