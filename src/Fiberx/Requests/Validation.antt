-- ===== src/Fiberx/Requests/Validation.antt =====
-- What a body that is refused becomes on the wire.
use neokit.Base.{
  Bool, some, List, none, ◌≡◌, String, false, true, [], ◌⊎◌, if◌then◌else◌, map, inr, inl, refl,
}
use neokit.Fiberx.Errors.{ApiError, Chain, Mapper, render, status_for_error, normalized}
use neokit.Fiberx.Requests.{
  Validated, passed, failing, other_error, bind_and_validate, field_error, refused,
  validation_error,
}

-- The error as a handler returns it.
abbrev pub chain_of : ApiError → Chain
chain_of e = record {
  api = some e;
  fiber = none;
  not_found = false;
  invalid_input = false;
  conflict = false;
}

-- What the client is told of a body: which of its fields failed, and by which rule.
unfoldable pub told : Bool → Validated → List (String × String)
told false v = []
told true passed = []
told true (failing errs) = errs
told true (other_error t) = []

-- BindAndValidate has no error where the body binds and passes; else the error is rendered, whatever
-- the mapper, with status 400, a code that says which of the two failed, and one entry for each
-- field that failed, in their order, with the field's name, its tag and the tag's sentence.
pub bind_and_validate-render :
    (mapper : Mapper) (binds : Bool) (v : Validated)
    → ((binds ≡ true) × (v ≡ passed) × (bind_and_validate binds v ≡ none))
      ⊎ ((e : ApiError) × (bind_and_validate binds v ≡ some e)
          × ((render mapper (chain_of e)).sent_status ≡ 400)
          × (status_for_error mapper (chain_of e) ≡ 400)
          × ((render mapper (chain_of e)).error_code
              ≡ (if binds then "validation_failed" else "invalid_body"))
          × ((render mapper (chain_of e)).error_fields ≡ map field_error (told binds v)))
unfolding bind_and_validate render status_for_error normalized told validation_error
bind_and_validate-render mapper false v =
    inr (refused "invalid_body" "invalid request body" [], refl, refl, refl, refl, refl)
bind_and_validate-render mapper true passed = inl (refl, refl, refl)
bind_and_validate-render mapper true (failing errs) =
    inr (validation_error errs, refl, refl, refl, refl, refl)
bind_and_validate-render mapper true (other_error t) =
    inr (refused "validation_failed" t [], refl, refl, refl, refl, refl)
