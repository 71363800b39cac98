-- ===== src/Examples/Upstreams.antt =====
-- Requests to an upstream that answers 503 twice, and logins that count themselves.
use neokit.Base.{
  Bool, inl, List, ◌∷◌, ◌==◌, Option, pos, true, ℕ, ◌≡◌, ◌*◌, String, [], false, none, some, suc,
  ◌⊎◌, ◌+◌, ◌<◌, ◌<ℤ◌, arith, inr, zero, refl, ◌≤ℤ◌, All, string_eq, ◌≢◌,
}
use neokit.Clock.{Instant, Duration, second}
use neokit.Httpc.Client.{
  Source, Times, Sent, answered, token_of, attempt, do_with_token_retry, do_json,
}
use neokit.Httpc.Client.Calls.{as_request, as_error, do_json-do_with_token_retry}
use neokit.Httpc.Transport.{
  default_retry_config, no_body, Request, response, Event, idempotent_method, replayable,
  round_trip, retryable,
}
use neokit.Httpc.Transport.Attempts.{round_trip_retries, retry_after_overflow}
use neokit.Strconv.{atoi}
use neokit.Text.{trim, Text, codes, trim_space}

abbrev parse_time : Text → Option Instant
parse_time s = none

abbrev get : Request
get = record { method = "GET"; body = no_body }

abbrev status_at : ℕ → ℕ
status_at zero = 503
status_at (suc zero) = 503
status_at (suc (suc n)) = 200

abbrev script : ℕ → Event
script n = record {
  reply = response (status_at n) [];
  now = pos 0;
  random = 0;
  ended = none;
  body_reopens = true;
}

round_trip_retries_example :
    let trip = round_trip parse_time default_retry_config get script in
    ((i : ℕ) → suc i < trip.sent → retryable (script i).reply ≡ true)
    × (pos 0 <ℤ default_retry_config.max_delay
        → default_retry_config.base_delay ≤ℤ default_retry_config.max_delay
        → All (λ wait. wait ≤ℤ default_retry_config.max_delay) trip.waits)
round_trip_retries_example = round_trip_retries parse_time default_retry_config get script

abbrev patient : Text
patient = codes "10000000000"

abbrev busy : ℕ → Event
busy n = record {
  reply = response 503 patient;
  now = pos 0;
  random = 0;
  ended = none;
  body_reopens = true;
}

reads_seconds : atoi (trim_space patient) ≡ some (pos 10000000000)
unfolding atoi trim
reads_seconds = refl

retry_after_overflow_example :
    let trip = round_trip parse_time default_retry_config get busy in
    (1 < trip.sent)
    × ((wait : Duration) × (waits : List Duration) × (trip.waits ≡ wait ∷ waits) × (wait <ℤ pos 0))
unfolding idempotent_method replayable retryable
retry_after_overflow_example =
    retry_after_overflow parse_time default_retry_config get busy 1 503 10000000000 patient refl
      refl refl refl refl reads_seconds (ground arith) refl refl

-- A login gives "new" and counts.
abbrev login : ℕ → ℕ × (ℕ ⊎ (String × Duration))
login n = (suc n, inr ("new", pos (600 * second)))

abbrev cached : Source
cached = record { margin = pos (60 * second); token = "old"; expires_at = pos (900 * second) }

abbrev at : ℕ → Times
at n = record { asked = pos (n * second); logged_in = pos (n * second + 5) }

abbrev old : String
old = "old"

abbrev new : String
new = "new"

distinct : (a b : String) → string_eq.beq a b ≡ false → a ≢ b
distinct a b h e = ground (arith, h, e, string_eq.beq_iff a b)

abbrev send : Option String → ℕ → ℕ × Sent
send token n = (suc n, answered 401 true)

-- The upstream's own refusal of a login.
abbrev denied : ℕ → Bool
denied e = e == 401

do_json-do_with_token_retry_example :
    let (s', w', result) =
      do_with_token_retry login (at 10) (at 11) (as_request login denied send) cached 0 in
    (((e : ℕ) → (token_of login (at 10) "" cached 0).2 ≡ inl e → denied e ≡ false)
      → do_json login denied true send (at 10) (at 11) (some cached) 0
        ≡ (some s', w', as_error login denied result))
    × ((s1 : Source) (w1 e : ℕ)
        → token_of login (at 10) "" cached 0 ≡ (s1, w1, inl e)
        → denied e ≡ true
        → let (s2, w2, used, err) = attempt login true send (at 11) "" (some s1) w1 in
          do_json login denied true send (at 10) (at 11) (some cached) 0 ≡ (s2, w2, err))
do_json-do_with_token_retry_example =
    do_json-do_with_token_retry login denied send (at 10) (at 11) cached 0
