-- ===== src/Httpc/Fault/Classes.antt =====
-- What a classification tells a caller (httpc/fault.go).
use neokit.Base.{
  ℕ, ◌&&◌, any, some, ◌≡◌, false, true, ◌∷◌, arith, refl, ◌↔◌, All, ◌⊎◌, ◌≤◌, ◌≢◌, none, [],
}
use neokit.Httpc.Fault.{
  other, Error, Fault, conflict, fault_not_found, retryable, admin_actionable, log_level,
  fault_for_status, classify, is_not_found, is_already_exists, is_context, is_net_error, api_status,
  warn,
}

-- Wrapping an error in one that the code does not know changes nothing of its classification.
pub classify_wrap : (e : Error) → classify (some (other ∷ e)) ≡ classify (some e)
unfolding classify
classify_wrap e = refl

-- An error response is retryable exactly at status 429 and at 500 and above but for 501, and
-- something for the operator exactly at 401, 403 and 409.
pub status_decisions :
    (status : ℕ)
    → ((retryable (fault_for_status status) ≡ true)
        ↔ ((status ≡ 429) ⊎ ((500 ≤ status) × (status ≢ 501))))
      × ((admin_actionable (fault_for_status status) ≡ true)
          ↔ ((status ≡ 401) ⊎ (status ≡ 403) ⊎ (status ≡ 409)))
unfolding fault_for_status retryable admin_actionable
status_decisions status =
    ((λ h. ground arith, λ h. ground arith), (λ h. ground arith, λ h. ground arith))

-- The sentinels come before every status, and not-found before already-exists; otherwise the
-- outermost API error decides, however the transport failed besides.
pub classify_precedence :
    (e : Error)
    → (any is_not_found e ≡ true → classify (some e) ≡ fault_not_found)
      × (any is_not_found e ≡ false → any is_already_exists e ≡ true → classify (some e) ≡ conflict)
      × ((status : ℕ)
          → any is_not_found e ≡ false
          → any is_already_exists e ≡ false
          → api_status e ≡ some status
          → classify (some e) ≡ fault_for_status status)
unfolding classify
classify_precedence e = (λ h. ground arith, λ h k. ground arith, λ status h k s. ground arith)

unplaced :
    (e : Error)
    → All (λ link. link ≡ other) e
    → (any is_not_found e ≡ false)
      × (any is_already_exists e ≡ false)
      × (api_status e ≡ none)
      × (any is_context e ≡ false)
      × (any is_net_error e ≡ false)
unplaced [] h = (refl, refl, refl, refl, refl)
unplaced (link ∷ e) h = rw h.0 (unplaced e h.1)

-- No fault is both retryable and for the operator; the operator's are those that are logged as
-- warnings; and an error that is neither a sentinel, an API error, a context's error nor a network
-- error is unknown, and so neither retried nor shown to the operator.
pub decisions_disjoint :
    (f : Fault) (e : Error)
    → (retryable f && admin_actionable f ≡ false)
      × ((log_level f ≡ warn) ↔ (admin_actionable f ≡ true))
      × (All (λ link. link ≡ other) e
          → (retryable (classify (some e)) ≡ false)
            × (admin_actionable (classify (some e)) ≡ false))
unfolding retryable admin_actionable log_level classify
decisions_disjoint f e =
    (ground arith, (λ h. ground arith, λ h. ground arith), λ h. ground (arith, unplaced e h))
