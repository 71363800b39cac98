-- ===== src/Httpc/Transport.antt =====
-- httpc/transport.go: the retries of RetryTransport. What the network, the clock, the random source
-- and the context do in each attempt is a script; a request's body is read again by GetBody.
pub mod Attempts
use neokit.Base.{
  ℕ, zero, suc, ◌+◌, ◌*◌, ◌/◌, ◌%◌, ℤ, pos, negsuc, ◌+ℤ◌, ltb_ℤ, leb_ℤ, leb, Bool, true, false, not,
  ◌==◌, ◌&&◌, ◌||◌, String, string_eq, List, [], ◌∷◌, Option, none, some, if◌then◌else◌, ◌≤◌,
}
use neokit.Clock.{Instant, Duration, second, sub}
use neokit.Text.{Text, trim_space}
use neokit.Strconv.{wrap64, atoi}

pub record RetryConfig : Type 0 where
  pub max_retries : ℤ
  pub base_delay : Duration
  pub max_delay : Duration

abbrev pub millisecond : ℕ
millisecond = 1_000_000

abbrev pub default_retry_config : RetryConfig
default_retry_config = record {
  max_retries = pos 2;
  base_delay = pos (200 * millisecond);
  max_delay = pos (2 * second);
}

-- A request's body: none, one that GetBody opens again, or one that is read once.
pub data Body : Type 0 where
  no_body reopened once_only : Body

pub record Request : Type 0 where
  pub method : String
  pub body : Body

pub data Failure : Type 0 where
  canceled deadline_exceeded transport get_body : Failure

-- What a round trip gives: an error, or a response with its Retry-After header.
pub data Reply : Type 0 where
  failed : Failure → Reply
  response : ℕ → Text → Reply

unfoldable pub replayable : Request → Bool
replayable req = elim req.body [ no_body ↦ true | reopened ↦ true | once_only ↦ false ]

unfoldable pub idempotent_method : String → Bool
idempotent_method m =
    string_eq.beq m "GET"
    || string_eq.beq m "HEAD"
    || string_eq.beq m "OPTIONS"
    || string_eq.beq m "TRACE"
    || string_eq.beq m ""

unfoldable pub retryable : Reply → Bool
retryable (failed canceled) = false
retryable (failed deadline_exceeded) = false
retryable (failed transport) = true
retryable (failed get_body) = true
retryable (response status header) = status == 429 || (leb 500 status && leb status 599)

-- parseRetryAfter; `parse_time` is http.ParseTime.
unfoldable pub parse_trimmed : (Text → Option Instant) → Instant → Text → Option Duration
parse_trimmed parse_time now [] = none
parse_trimmed parse_time now (c ∷ v) = elim (atoi (c ∷ v)) [
  | some (pos n) ↦ some (wrap64 (pos (n * second)))
  | some (negsuc n) ↦ none
  | none ↦ elim (parse_time (c ∷ v)) [
    | none ↦ none
    | some t ↦ let d = sub t now in if ltb_ℤ (pos 0) d then some d else some (pos 0)
  ]
]

abbrev pub parse_retry_after : (Text → Option Instant) → Instant → Text → Option Duration
parse_retry_after parse_time now header = parse_trimmed parse_time now (trim_space header)

-- What an attempt meets beside its reply.
pub record Event : Type 0 where
  pub reply : Reply
  pub now : Instant
  pub random : ℕ
  pub ended : Option Failure  -- the context's error, if it ends before the wait does
  pub body_reopens : Bool  -- GetBody succeeds before the attempt

-- The wait, or none to give up: a Retry-After, else the delay jittered down by up to half.
unfoldable pub jittered : Duration → ℕ → Duration
jittered (pos n) random = pos (n / 2 + random % suc (n / 2))
jittered (negsuc n) random = pos 0

abbrev pub retry_after_of : (Text → Option Instant) → Event → Option Duration
retry_after_of parse_time e = elim e.reply [
  | failed x ↦ none
  | response status header ↦ parse_retry_after parse_time e.now header
]

unfoldable pub backoff_for : (Text → Option Instant) → Event → Duration → Duration → Option Duration
backoff_for parse_time e delay max_delay = elim (retry_after_of parse_time e) [
  | some d ↦ if ltb_ℤ (pos 0) max_delay && ltb_ℤ max_delay d then none else some d
  | none ↦ some (jittered delay e.random)
]

-- The delay of the next attempt.
unfoldable pub next_delay : Duration → Duration → Duration
unfolding wrap64
next_delay max_delay delay =
    let doubled = wrap64 (delay +ℤ delay) in
    if ltb_ℤ delay max_delay
    then (if ltb_ℤ max_delay doubled then max_delay else doubled)
    else delay

pub record Trip : Type 0 where
  pub reply : Reply
  pub sent : ℕ  -- the requests that went out
  pub waits : List Duration

module _ (parse_time : Text → Option Instant) (max_delay : Duration) (body : Body)
    (script : ℕ → Event) where
  abbrev pub reopen_fails : ℕ → Bool
  reopen_fails attempt = elim body [
    | reopened ↦ not (attempt == 0) && not (script attempt).body_reopens
    | no_body ↦ false
    | once_only ↦ false
  ]

  -- The loop of RoundTrip from an attempt on, with how many retries are left.
  unfoldable pub attempts : ℕ → ℕ → Duration → Trip
  unfolding retryable backoff_for next_delay
  attempts zero attempt delay =
      if reopen_fails attempt
      then record { reply = failed get_body; sent = 0; waits = [] }
      else record { reply = (script attempt).reply; sent = 1; waits = [] }
  attempts (suc left) attempt delay =
      let e = script attempt in
      let rest = attempts left (suc attempt) (next_delay max_delay delay) in
      let stop : Trip = record { reply = e.reply; sent = 1; waits = [] } in
      if reopen_fails attempt
      then record { reply = failed get_body; sent = 0; waits = [] }
      else if not (retryable e.reply)
      then stop
      else elim (backoff_for parse_time e delay max_delay) [
        | none ↦ stop
        | some wait ↦ elim e.ended [
          | some err ↦ record { reply = failed err; sent = 1; waits = wait ∷ [] }
          | none ↦ record { reply = rest.reply; sent = suc rest.sent; waits = wait ∷ rest.waits }
        ]
      ]

-- RoundTrip
unfoldable pub round_trip : (Text → Option Instant) → RetryConfig → Request → (ℕ → Event) → Trip
unfolding attempts idempotent_method replayable
round_trip parse_time cfg req script =
    let once : Trip = record { reply = (script 0).reply; sent = 1; waits = [] } in
    elim cfg.max_retries [
      | negsuc n ↦ once
      | pos zero ↦ once
      | pos (suc n) ↦
          if not (idempotent_method req.method) || not (replayable req)
          then once
          else attempts parse_time cfg.max_delay req.body script (suc n) 0 cfg.base_delay
    ]
