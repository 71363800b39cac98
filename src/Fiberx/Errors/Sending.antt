-- ===== src/Fiberx/Errors/Sending.antt =====
-- What is sent for an error, and what is recorded of it (fiberx/errors.go).
use neokit.Base.{
  ℕ, ◌≡◌, none, string_eq, ◌≢◌, false, some, ◌⊎◌, arith, ◌==◌, Bool, String, leb, if◌then◌else◌,
  refl, true, Bool-cases, Option-cases, inl, inr,
}
use neokit.Fiberx.Errors.{
  ApiError, FiberError, Chain, code_for_status, normalized, applied, Mapper, write_error, render,
  status_for_error,
}

-- A choice of two codes that are not empty.
pick :
    (b : Bool) (x y : String)
    → string_eq.beq x "" ≡ false
    → string_eq.beq y "" ≡ false
    → string_eq.beq (if b then x else y) "" ≡ false
pick true x y h k = h
pick false x y h k = k

code_for_status_nonempty : (status : ℕ) → string_eq.beq (code_for_status status) "" ≡ false
unfolding code_for_status
code_for_status_nonempty status = pick (status == 400) _ _ refl (
    pick (status == 401) _ _ refl (
      pick (status == 403) _ _ refl (
        pick (status == 404) _ _ refl (
          pick (status == 409) _ _ refl (
            pick (status == 412) _ _ refl (
              pick (status == 415) _ _ refl (
                pick (status == 422) _ _ refl (
                  pick (status == 429) _ _ refl (
                    pick (status == 501) _ _ refl (
                      pick (status == 502) _ _ refl (
                        pick (status == 503) _ _ refl
                          (pick (leb 500 status) _ _ refl refl))))))))))))

nonempty : (s : String) → string_eq.beq s "" ≡ false → s ≢ ""
nonempty s h e = ground (arith, h, e, string_eq.beq_iff s "")

api_sent :
    (mapper : Mapper) (e : Chain) (ae : ApiError)
    → e.api ≡ some ae
    → (render mapper e).sent_status ≡ applied (status_for_error mapper e)
unfolding render status_for_error normalized
api_sent mapper e ae h = ground (arith, h)

api_coded :
    (mapper : Mapper) (e : Chain) (ae : ApiError)
    → e.api ≡ some ae
    → (render mapper e).error_code ≢ ""
unfolding render normalized
api_coded mapper e ae h = elim (Bool-cases (string_eq.beq ae.code "")) [
  | inl k ↦
      nonempty (render mapper e).error_code
        (rw (h, k) (code_for_status_nonempty (if ae.status == 0 then 500 else ae.status)))
  | inr k ↦ nonempty (render mapper e).error_code (rw (h, k) k)
]

fiber_sent :
    (mapper : Mapper) (e : Chain) (fe : FiberError)
    → e.api ≡ none
    → e.fiber ≡ some fe
    → ((render mapper e).sent_status ≡ applied (status_for_error mapper e))
      × ((render mapper e).error_code ≢ "")
unfolding render status_for_error
fiber_sent mapper e fe h k = (
  rw (h, k) refl,
  nonempty (render mapper e).error_code (rw (h, k) (code_for_status_nonempty fe.fiber_status)),
)

other_sent :
    (mapper : Mapper) (e : Chain)
    → e.api ≡ none
    → e.fiber ≡ none
    → (render mapper e).sent_status ≡ applied (status_for_error mapper e)
unfolding render status_for_error write_error
other_sent mapper e h k = ground (arith, h, k)

-- The status that the metrics record for an error is the one that Render sends, whatever the error is
-- and whatever the mapper says, where a status of 0 is sent as the server's default; and unless the
-- error carries neither an APIError nor a fiber.Error, the envelope has a code that is not empty.
pub render-status_for_error :
    (mapper : Mapper) (e : Chain)
    → ((render mapper e).sent_status ≡ applied (status_for_error mapper e))
      × (((e.api ≡ none) × (e.fiber ≡ none)) ⊎ ((render mapper e).error_code ≢ ""))
render-status_for_error mapper e = elim (Option-cases e.api) [
  | inr (ae, h) ↦ (api_sent mapper e ae h, inr (api_coded mapper e ae h))
  | inl h ↦ elim (Option-cases e.fiber) [
    | inr (fe, k) ↦ let (a, b) = fiber_sent mapper e fe h k in (a, inr b)
    | inl k ↦ (other_sent mapper e h k, inl (h, k))
  ]
]

-- WriteError sends an APIError whose status was left unset as a success, with its own code; Render
-- sends the same error, and the metrics record it, as 500.
pub write_error-render :
    (mapper : Mapper) (e : Chain) (ae : ApiError)
    → e.api ≡ some ae
    → ae.status ≡ 0
    → ((write_error mapper e).sent_status ≡ 200)
      × ((write_error mapper e).error_code ≡ ae.code)
      × ((render mapper e).sent_status ≡ 500)
      × (status_for_error mapper e ≡ 500)
unfolding render write_error normalized status_for_error
write_error-render mapper e ae h k = ground (arith, h, k)
