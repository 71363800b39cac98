-- ===== src/Examples/Sending.antt =====
-- A client of an upstream that rejects the first token, and what its debug ring shows.
use neokit.Base.{
  ◌↔◌, ◌++◌, Option, String, pos, some, ℕ, ◌∷◌, ◌*◌, [], ◌^◌, if◌then◌else◌, none, ◌≡◌, ◌⊎◌, ◌-◌,
  inr, length, refl, string_eq, suc, ◌≢◌, ◌≤◌, inl, ltb, zero, arith, take, List, true, false,
}
use neokit.Clock.{Duration, second, zero_time}
use neokit.Text.{Text, codes}
use neokit.Httpc.Client.{Times, new_source, do_with_token_retry, read_all_limited}
use neokit.Httpc.Client.Bounded.{bound_of, read_all_limited_lem}
use neokit.Httpc.Debug.{new_ring}
use neokit.Httpc.Bytes.{Response, responded, bytes}
use neokit.Httpc.Bytes.Retry.{with_status, as_bytes, bytes-do_with_token_retry}
use neokit.Httpc.Sending.{
  Body, Url, DoError, replied, no_reply, error_body_limit, check_status, send,
}
use neokit.Httpc.Sending.Redaction.{send-redacted}
use neokit.Httpc.Sending.Bodies.{whole, error_of_status, check_status-send}

-- A login gives the first token, and then another.
abbrev login : ℕ → ℕ × (ℕ ⊎ (String × Duration))
login zero = (1, inr ("old", pos (600 * second)))
login (suc n) = (suc (suc n), inr ("new", pos (600 * second)))

abbrev request : String → ℕ → ℕ × Response
request token n = (
  n,
  if string_eq.beq token "new"
      then responded 200 (some (1 ∷ 2 ∷ [])) "image/png"
      else responded 401 none "",
)

abbrev body : List ℕ
body = 100 ∷ []

abbrev at : ℕ → Times
at n = record { asked = pos (n * second); logged_in = pos (n * second) }

bytes-do_with_token_retry_example :
    let (s', w', result) =
      do_with_token_retry login (at 10) (at 11) (with_status login request) new_source 0 in
    bytes login request (at 10) (at 11) (pos 100) (some new_source) 0
    ≡ (some s', w', as_bytes login (pos 100) result)
bytes-do_with_token_retry_example =
    bytes-do_with_token_retry login request (at 10) (at 11) (pos 100) new_source 0

-- URLs of one host, with a key in the query or without.
abbrev parse : Text → Option (Url Text)
parse raw =
    some (record { rest = codes "https://host/x"; user = none; raw_query = raw; fragment = [] })

abbrev print : Url Text → Text
print u = u.rest ++ codes "?" ++ u.raw_query

abbrev error_of : DoError → Text
error_of e = codes "failed"

send-redacted_example :
    (send parse print error_of
      (codes "tmdb")
      zero_time
      7
      (codes "GET")
      (codes "key=1")
      (no_reply (codes "Get") (codes "refused"))
      (some (new_ring (pos 2)))).0
    ≡ (send parse print error_of
        (codes "tmdb")
        zero_time
        7
        (codes "GET")
        (codes "key=2")
        (no_reply (codes "Get") (codes "refused"))
        (some (new_ring (pos 2)))).0
send-redacted_example =
    send-redacted parse print error_of (codes "tmdb") (codes "GET") zero_time 7
      (no_reply (codes "Get") (codes "refused")) (some (new_ring (pos 2))) (codes "key=1")
      (codes "key=2") _ _ refl refl refl

abbrev broken : Body
broken = record { received = body; breaks = true }

check_status-send_example :
    let sent =
      (send parse print error_of
        (codes "tmdb")
        zero_time
        7
        (codes "GET")
        (codes "u")
        (replied 503 broken)
        none).1 in
    let checked = check_status (codes "tmdb") (some (503, broken)) in
    (sent ≡ inl (inr (error_of_status (codes "tmdb") 503 (take error_body_limit body))))
    × (checked ≡ some (inr (error_of_status (codes "tmdb") 503 (whole broken))))
    × ((take error_body_limit body ≡ whole broken)
        ↔ ((body ≡ []) ⊎ (true ≡ false) × (length body ≤ error_body_limit)))
check_status-send_example =
    check_status-send parse print error_of (codes "tmdb") (codes "GET") (codes "u") zero_time 7 503
      broken none refl

read_all_limited_lem_example :
    (bound_of (pos (2 ^ 63 - 1)) ≢ 2 ^ 63 - 1)
      × (read_all_limited body (pos (2 ^ 63 - 1))
          ≡ (if ltb (bound_of (pos (2 ^ 63 - 1))) (length body) then none else some body))
    ⊎ (bound_of (pos (2 ^ 63 - 1)) ≡ 2 ^ 63 - 1)
      × (read_all_limited body (pos (2 ^ 63 - 1)) ≡ some [])
read_all_limited_lem_example = read_all_limited_lem body (pos (2 ^ 63 - 1)) (omega arith)
