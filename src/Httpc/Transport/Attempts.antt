-- ===== src/Httpc/Transport/Attempts.antt =====
-- How often a request goes out, and how long it waits (httpc/transport.go).
use neokit.Base.{
  ℕ, zero, suc, ◌+◌, ◌*◌, ◌≤◌, ◌<◌, ◌^◌, ◌≡◌, ◌⊎◌, ℤ, pos, negsuc, ◌≤ℤ◌, ◌<ℤ◌, All, true, false,
  arith, refl, [], ◌∷◌, Option, none, some, Bool-cases, Option-cases, inl, inr, subst, ◌%◌, List,
  ap, ◌∙◌,
}
use neokit.Clock.{Instant, Duration, second}
use neokit.Text.{Text, trim_space}
use neokit.Strconv.{wrap64, atoi}
use neokit.Httpc.Transport.{
  reopened, no_body, once_only, Body, reopen_fails, RetryConfig, Request, Body, response, Event,
  Trip, replayable, idempotent_method, retryable, jittered, backoff_for, next_delay, attempts,
  round_trip, retry_after_of, parse_trimmed,
}

next_delay_small :
    (max_delay delay : Duration)
    → pos 0 ≤ℤ max_delay
    → delay ≤ℤ max_delay
    → next_delay max_delay delay ≤ℤ max_delay
unfolding next_delay
next_delay_small max_delay delay h k = ground arith

jittered_small :
    (max_delay delay : Duration) (random : ℕ)
    → pos 0 ≤ℤ max_delay
    → delay ≤ℤ max_delay
    → jittered delay random ≤ℤ max_delay
unfolding jittered
jittered_small max_delay (pos n) random h k = ground arith
jittered_small max_delay (negsuc n) random h k = h

backoff_small :
    (parse_time : Text → Option Instant) (e : Event) (max_delay delay wait : Duration)
    → pos 0 <ℤ max_delay
    → delay ≤ℤ max_delay
    → backoff_for parse_time e delay max_delay ≡ some wait
    → wait ≤ℤ max_delay
unfolding backoff_for
backoff_small parse_time e max_delay delay wait h k b =
    elim (Option-cases (retry_after_of parse_time e)) [
      | inl a ↦ ground (arith, a, jittered_small max_delay delay e.random)
      | inr (d, a) ↦ ground (arith, a)
    ]

module _ (parse_time : Text → Option Instant) (max_delay : Duration) (body : Body)
    (script : ℕ → Event) where
  abbrev from : ℕ → ℕ → Duration → Trip
  from left attempt delay = attempts parse_time max_delay body script left attempt delay

  attempts_bounded :
      (left attempt : ℕ) (delay : Duration) → (from left attempt delay).sent ≤ suc left
  unfolding attempts
  attempts_bounded zero attempt delay = ground arith
  attempts_bounded (suc left) attempt delay =
      ground (arith, attempts_bounded left (suc attempt) (next_delay max_delay delay))

  waits_small :
      (left attempt : ℕ) (delay : Duration)
      → pos 0 <ℤ max_delay
      → delay ≤ℤ max_delay
      → All (λ wait. wait ≤ℤ max_delay) (from left attempt delay).waits
  unfolding attempts
  waits_small zero attempt delay h k = ground arith
  waits_small (suc left) attempt delay h k =
      elim (Option-cases (backoff_for parse_time (script attempt) delay max_delay)) [
        | inl b ↦ ground (arith, b)
        | inr (wait, b) ↦ ground (
          arith,
          b,
          backoff_small parse_time (script attempt) max_delay delay wait h k b,
          waits_small left (suc attempt) (next_delay max_delay delay) h
              (next_delay_small max_delay delay (omega arith) k),
        )
      ]

  later :
      (left attempt i : ℕ) (delay : Duration)
      → suc (suc i) < (from (suc left) attempt delay).sent
      → suc i < (from left (suc attempt) (next_delay max_delay delay)).sent
  unfolding attempts
  later left attempt i delay h = ground (arith, h)

  retried_transient :
      (left attempt i : ℕ) (delay : Duration)
      → suc i < (from left attempt delay).sent
      → retryable (script (attempt + i)).reply ≡ true
  unfolding attempts
  retried_transient zero attempt i delay h = ground arith
  retried_transient (suc left) attempt zero delay h =
      let here : attempt + 0 ≡ attempt = omega arith in
      rw here (elim (Bool-cases (retryable (script attempt).reply)) [
        | inl t ↦ t
        | inr f ↦ ground (arith, h, f)
      ])
  retried_transient (suc left) attempt (suc i) delay h =
      let there : attempt + suc i ≡ suc attempt + i = omega arith in
      rw there (
        retried_transient left (suc attempt) i (next_delay max_delay delay)
          (later left attempt i delay h))

-- A request goes out at most once and then as often as retries are allowed; one whose method is
-- not idempotent, or whose body cannot be read again, exactly once, with the reply to that.
pub round_trip_bounded :
    (parse_time : Text → Option Instant) (cfg : RetryConfig) (req : Request) (script : ℕ → Event)
    (n : ℕ)
    → cfg.max_retries ≤ℤ pos n
    → let trip = round_trip parse_time cfg req script in
      (trip.sent ≤ suc n)
      × ((idempotent_method req.method ≡ false) ⊎ (replayable req ≡ false)
          → trip ≡ record { reply = (script 0).reply; sent = 1; waits = [] })
unfolding round_trip
round_trip_bounded parse_time cfg req script n h = split cfg.max_retries refl
  where
    split :
        (r : ℤ)
        → cfg.max_retries ≡ r
        → let trip = round_trip parse_time cfg req script in
          (trip.sent ≤ suc n)
          × ((idempotent_method req.method ≡ false) ⊎ (replayable req ≡ false)
              → trip ≡ record { reply = (script 0).reply; sent = 1; waits = [] })
    split (negsuc r) e = rw e (omega arith, λ x. refl)
    split (pos zero) e = rw e (omega arith, λ x. refl)
    split (pos (suc r)) e = (
      ground (
        arith,
        e,
        attempts_bounded parse_time cfg.max_delay req.body script (suc r) 0 cfg.base_delay,
      ),
      λ x. ground (arith, e, x),
    )

atoi_empty : atoi [] ≡ none
unfolding atoi
atoi_empty = refl

seconds_given :
    (parse_time : Text → Option Instant) (now : Instant) (v : Text) (n : ℕ)
    → atoi v ≡ some (pos n)
    → parse_trimmed parse_time now v ≡ some (wrap64 (pos (n * second)))
unfolding parse_trimmed
seconds_given parse_time now [] n h = cc (atoi_empty, h)
seconds_given parse_time now (c ∷ v) n h = rw (parse_trimmed, h) refl

wrap64_negative : (n : ℕ) → 2 ^ 63 ≤ n % 2 ^ 64 → wrap64 (pos n) <ℤ pos 0
unfolding wrap64
wrap64_negative n h = ground (arith, h)

-- A wait below zero is under every cap.
negative_wait :
    (parse_time : Text → Option Instant) (e : Event) (status n : ℕ) (header : Text)
    (delay max_delay : Duration)
    → e.reply ≡ response status header
    → atoi (trim_space header) ≡ some (pos n)
    → 2 ^ 63 ≤ (n * second) % 2 ^ 64
    → backoff_for parse_time e delay max_delay ≡ some (wrap64 (pos (n * second)))
unfolding backoff_for
negative_wait parse_time e status n header delay max_delay r a h =
    let low = wrap64_negative (n * second) h in
    let given = seconds_given parse_time e.now (trim_space header) n a in
    ground (arith, r, given, low)

reopens :
    (parse_time : Text → Option Instant) (max_delay : Duration) (body : Body) (script : ℕ → Event)
    (attempt : ℕ)
    → (script attempt).body_reopens ≡ true
    → reopen_fails parse_time max_delay body script attempt ≡ false
reopens parse_time max_delay reopened script attempt h = ground (arith, h)
reopens parse_time max_delay no_body script attempt h = refl
reopens parse_time max_delay once_only script attempt h = refl

-- An attempt whose body reopens sends a request.
attempts_sends :
    (parse_time : Text → Option Instant) (max_delay : Duration) (body : Body) (script : ℕ → Event)
    (left attempt : ℕ) (delay : Duration)
    → (script attempt).body_reopens ≡ true
    → 0 < (attempts parse_time max_delay body script left attempt delay).sent
unfolding attempts
attempts_sends parse_time max_delay body script zero attempt delay h =
    rw (reopens parse_time max_delay body script attempt h) (ground arith)
attempts_sends parse_time max_delay body script (suc left) attempt delay h =
    rw (reopens parse_time max_delay body script attempt h) (ground arith)

attempts_again :
    (parse_time : Text → Option Instant) (max_delay : Duration) (body : Body) (script : ℕ → Event)
    (r : ℕ) (delay wait : Duration)
    → retryable (script 0).reply ≡ true
    → backoff_for parse_time (script 0) delay max_delay ≡ some wait
    → (script 0).ended ≡ none
    → let rest = attempts parse_time max_delay body script r 1 (next_delay max_delay delay) in
      attempts parse_time max_delay body script (suc r) 0 delay
      ≡ record { reply = rest.reply; sent = suc rest.sent; waits = wait ∷ rest.waits }
unfolding attempts
attempts_again parse_time max_delay reopened script r delay wait x b k = ground (arith, x, b, k)
attempts_again parse_time max_delay no_body script r delay wait x b k = ground (arith, x, b, k)
attempts_again parse_time max_delay once_only script r delay wait x b k = ground (arith, x, b, k)

-- Where the first reply is a transient failure and the seconds of its Retry-After, as nanoseconds,
-- overflow to an int64 below zero, as 9223372037 to 18446744073 seconds do: a request that is
-- idempotent and can be replayed, that has a retry left and whose context has not ended waits for a
-- time below zero, whatever the cap on a wait, and goes out again.
pub retry_after_overflow :
    (parse_time : Text → Option Instant) (cfg : RetryConfig) (req : Request) (script : ℕ → Event)
    (r status n : ℕ) (header : Text)
    → cfg.max_retries ≡ pos (suc r)
    → idempotent_method req.method ≡ true
    → replayable req ≡ true
    → (script 0).reply ≡ response status header
    → retryable (response status header) ≡ true
    → atoi (trim_space header) ≡ some (pos n)
    → 2 ^ 63 ≤ (n * second) % 2 ^ 64
    → (script 0).ended ≡ none
    → (script 1).body_reopens ≡ true
    → let trip = round_trip parse_time cfg req script in
      (1 < trip.sent)
      × ((wait : Duration) × (waits : List Duration) × (trip.waits ≡ wait ∷ waits)
          × (wait <ℤ pos 0))
unfolding round_trip attempts
retry_after_overflow parse_time cfg req script r status n header m i p reply x a h k o =
    let wait = wrap64 (pos (n * second)) in
    let back =
      negative_wait parse_time (script 0) status n header cfg.base_delay cfg.max_delay reply a h in
    let again =
      attempts_again parse_time cfg.max_delay req.body script r cfg.base_delay wait
        (ap retryable reply ∙ x) back k in
    rw (m, i, p, again)
      (
        omega (
          arith,
          attempts_sends parse_time cfg.max_delay req.body script r 1
              (next_delay cfg.max_delay cfg.base_delay) o,
        ),
        (wait, _, refl, wrap64_negative (n * second) h),
      )

round_trip_shape :
    (parse_time : Text → Option Instant) (cfg : RetryConfig) (req : Request) (script : ℕ → Event)
    → (round_trip parse_time cfg req script
        ≡ record { reply = (script 0).reply; sent = 1; waits = [] })
      ⊎ ((r : ℕ) × (round_trip parse_time cfg req script
            ≡ attempts parse_time cfg.max_delay req.body script r 0 cfg.base_delay))
unfolding round_trip
round_trip_shape parse_time cfg req script = split cfg.max_retries refl
  where
    split :
        (r : ℤ)
        → cfg.max_retries ≡ r
        → (round_trip parse_time cfg req script
            ≡ record { reply = (script 0).reply; sent = 1; waits = [] })
          ⊎ ((r : ℕ) × (round_trip parse_time cfg req script
                ≡ attempts parse_time cfg.max_delay req.body script r 0 cfg.base_delay))
    split (negsuc r) e = inl (rw e refl)
    split (pos zero) e = inl (rw e refl)
    split (pos (suc r)) e = elim (Bool-cases (idempotent_method req.method)) [
      | inl t ↦ elim (Bool-cases (replayable req)) [
        | inl u ↦ inr (suc r, ground (arith, e, t, u))
        | inr u ↦ inl (ground (arith, e, t, u))
      ]
      | inr t ↦ inl (ground (arith, e, t))
    ]

-- A request is sent again only after a reply that is a transient failure: an error that is not the
-- context's, status 429, or one of 500 to 599. And where the first delay and the cap are in order,
-- no wait is longer than the cap.
pub round_trip_retries :
    (parse_time : Text → Option Instant) (cfg : RetryConfig) (req : Request) (script : ℕ → Event)
    → let trip = round_trip parse_time cfg req script in
      ((i : ℕ) → suc i < trip.sent → retryable (script i).reply ≡ true)
      × (pos 0 <ℤ cfg.max_delay
          → cfg.base_delay ≤ℤ cfg.max_delay
          → All (λ wait. wait ≤ℤ cfg.max_delay) trip.waits)
round_trip_retries parse_time cfg req script = elim (round_trip_shape parse_time cfg req script) [
  | inl e ↦ rw e (λ i h. absurd (omega (arith, h)), λ h k. tt)
  | inr (r, e) ↦ rw e (
    λ i h.
        let first : 0 + i ≡ i = omega arith in
        subst (λ n. retryable (script n).reply ≡ true) first
          (retried_transient parse_time cfg.max_delay req.body script r 0 i cfg.base_delay h),
    λ h k. waits_small parse_time cfg.max_delay req.body script r 0 cfg.base_delay h k,
  )
]
