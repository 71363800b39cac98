-- ===== src/Examples/Headers.antt =====
-- Headers and errors of requests.
use neokit.Base.{[], none, pos, some, ◌≡◌, false, true, ◌↔◌, refl}
use neokit.Fiberx.Concurrency.{etag_for_version, check_if_match, if_match_version}
use neokit.Fiberx.Concurrency.Conditions.{if_match_version-etag_for_version}
use neokit.Fiberx.Errors.{ApiError, Chain, Mapper, write_error, render, status_for_error}
use neokit.Fiberx.Errors.Sending.{write_error-render}

if_match_version-etag_for_version_example :
    (if_match_version (etag_for_version (pos 7)) ≡ (pos 7, true))
    × ((check_if_match (etag_for_version (pos 7)) (pos 8) ≡ true) ↔ (pos 7 ≡ pos 8))
if_match_version-etag_for_version_example =
    if_match_version-etag_for_version (pos 7) (pos 8) refl refl

-- An APIError that its author gave a message only.
abbrev nope : ApiError
nope = record { status = 0; message = "nope"; code = ""; fields = [] }

abbrev failing : Chain
failing = record {
  api = some nope;
  fiber = none;
  not_found = false;
  invalid_input = false;
  conflict = false;
}

abbrev no_mapper : Mapper
no_mapper = none

write_error-render_example :
    ((write_error no_mapper failing).sent_status ≡ 200)
    × ((write_error no_mapper failing).error_code ≡ "")
    × ((render no_mapper failing).sent_status ≡ 500)
    × (status_for_error no_mapper failing ≡ 500)
write_error-render_example = write_error-render no_mapper failing nope refl refl
