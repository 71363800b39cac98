-- ===== src/Httpc/Sending/Bodies.antt =====
-- The body of an APIError: CheckStatus against send.
use native.Mathlib.Decide.{dec_le}
use neokit.Base.{
  if◌then◌else◌, ltb, ◌||◌, ◌↔◌, List, Option, ℕ, ◌<◌, length, ◌≡◌, false, pos, ◌≤◌, none, some,
  inl, take_whole, inr, ◌⊎◌, arith, take, [], refl, Bool, ◌∷◌, true, ap, suc, ◌∙◌,
}
use neokit.Clock.{Instant}
use neokit.Text.{Text}
use neokit.Httpc.Client.{read_all_limited}
use neokit.Httpc.Client.Bounded.{read_all_limited_lem}
use neokit.Httpc.Debug.{DebugRing}
use neokit.Httpc.Sending.{
  Body, read_body, Url, DoError, ApiError, replied, successful, error_body_limit, check_status,
  send,
}

pub read_all_limited_short :
    (body : List ℕ)
    → length body ≤ error_body_limit
    → read_all_limited body (pos error_body_limit) ≡ some body
read_all_limited_short body h = ground (arith, h, read_all_limited_lem body (pos error_body_limit))

read_all_limited_long :
    (body : List ℕ)
    → error_body_limit < length body
    → read_all_limited body (pos error_body_limit) ≡ none
read_all_limited_long body h = ground (arith, h, read_all_limited_lem body (pos error_body_limit))

-- What CheckStatus keeps: all of a body that is read to its end and fits, and else nothing.
abbrev pub whole : Body → List ℕ
whole body =
    if body.breaks || ltb error_body_limit (length body.received) then [] else body.received

pub read_body-whole :
    (body : Body)
    → Path
        (List ℕ)
        (elim (read_body body error_body_limit) [ none ↦ [] | some raw ↦ raw ])
        (whole body)
unfolding read_body
read_body-whole body = elim (dec_le (length body.received) error_body_limit) [
  | yes k ↦ ground (arith, k, read_all_limited_short body.received k)
  | no k ↦ ground (arith, k, read_all_limited_long body.received (omega (arith, k)))
]

some_left : (c : ℕ) (bytes : List ℕ) → Path (List ℕ) (c ∷ bytes) [] → ⊥
some_left c bytes e = omega (arith, ap length e)

kept_same :
    (n : ℕ) (bytes : List ℕ) (breaks : Bool)
    → (Path
        (List ℕ)
        (take (suc n) bytes)
        (if breaks || ltb (suc n) (length bytes) then [] else bytes))
      ↔ ((Path (List ℕ) bytes []) ⊎ (breaks ≡ false) × (length bytes ≤ suc n))
kept_same n [] true = (λ e. inl refl, λ h. refl)
kept_same n [] false = (λ e. inl refl, λ h. ground arith)
kept_same n (c ∷ bytes) true = (
  λ e. absurd (some_left c (take n bytes) e),
  λ h. elim h [ inl e ↦ absurd (some_left c bytes e) | inr (f, k) ↦ ground (arith, f) ],
)
kept_same n (c ∷ bytes) false = elim (dec_le (length (c ∷ bytes)) (suc n)) [
  | yes k ↦
      let long : ltb (suc n) (length (c ∷ bytes)) ≡ false = ground (arith, k) in
      (λ e. inr (refl, k), λ h. rw (long) (take_whole (c ∷ bytes) (suc n) k))
  | no k ↦
      let long : ltb (suc n) (length (c ∷ bytes)) ≡ true = ground (arith, k) in
      (
        λ e. absurd (some_left c (take n bytes) (e ∙ ap (λ b. if b then [] else c ∷ bytes) long)),
        λ h. elim h [ inl e ↦ absurd (some_left c bytes e) | inr (f, l) ↦ absurd (k l) ],
      )
]

abbrev pub error_of_status : Text → ℕ → List ℕ → ApiError
error_of_status service status body = record { service = service; status = status; body = body }

module _ {R : Type 0} (parse : Text → Option (Url R)) (print : Url R → Text)
    (error_of : DoError → Text) where
  -- A response outside 200 to 299 is an APIError with its service and status from send and from
  -- CheckStatus alike. Of the body, send keeps the first 8 KiB of what arrives, also where the read
  -- breaks; CheckStatus keeps a body that ends within 8 KiB and nothing of one that is longer or
  -- whose read breaks. So the errors are the same exactly where the body ends within 8 KiB or
  -- nothing of it arrives.
  pub check_status-send :
      (service method url : Text) (start : Instant) (lasted status : ℕ) (body : Body)
      (ring : Option DebugRing)
      → successful status ≡ false
      → let sent =
          (send parse print error_of service start lasted method url
            (replied status body)
            ring).1 in
        let checked = check_status service (some (status, body)) in
        (sent ≡ inl (inr (error_of_status service status (take error_body_limit body.received))))
        × (checked ≡ some (inr (error_of_status service status (whole body))))
        × ((take error_body_limit body.received ≡ whole body) ↔ (
            (body.received ≡ [])
            ⊎ (body.breaks ≡ false) × (length body.received ≤ error_body_limit)))
  unfolding send check_status
  check_status-send service method url start lasted status body ring h =
      (rw h refl, rw (h, read_body-whole body) refl, kept_same 8191 body.received body.breaks)
