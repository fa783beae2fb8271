-- ===== src/Problems.antt =====
-- crates/shared-kernel/src/errors.rs, with `MalformedRequest` of crates/shared-kernel/src/json.rs and
-- `DataError` of crates/shared-kernel/src/data.rs. A status is its number; `canonical_reason` of
-- the http crate is a parameter, and so is the type of a driver's error. The header of a response
-- that every problem has in the same way, its media type, is left out.
pub mod Answers
pub mod Filing
pub mod Trace
pub mod Minting
mod Tests
use rust_api_modular_monolit.Base.{
  ℕ, ◌≡◌, refl, String, Bool, true, false, List, [], ◌∷◌, Option, none, some, ◌==◌, eq_nat,
  eq_string, if◌then◌else◌, get_or, map_option,
}
use rust_api_modular_monolit.Base.Map.{get, insert}
use rust_api_modular_monolit.Base.Result.{Result, ok, err}
use rust_api_modular_monolit.Base.Text.{trim, is_empty}
use rust_api_modular_monolit.Validation.{ValidationErrors, add_message}

-- `ProblemDetails`
pub record ProblemDetails : Type 0 where
  pub type_uri : Option String
  pub title : String
  pub status : ℕ
  pub detail : Option String
  pub instance_uri : Option String
  pub errors : Option ValidationErrors
  pub trace_id : String

-- `ProblemDetails::validation`
abbrev pub validation : ValidationErrors → String → ProblemDetails
validation errors trace_id = record {
  type_uri = some "https://www.rfc-editor.org/rfc/rfc9110#section-15.5.1";
  title = "Request validation failed.";
  status = 400;
  detail = some "One or more validation errors occurred.";
  instance_uri = none;
  errors = some errors;
  trace_id = trace_id;
}

-- `ProblemDetails::malformed_request`
abbrev pub malformed_request : ℕ → String → String → ProblemDetails
malformed_request status detail trace_id = record {
  type_uri = some "https://www.rfc-editor.org/rfc/rfc9110#section-15.5.1";
  title = "Malformed request.";
  status = status;
  detail = some detail;
  instance_uri = none;
  errors = none;
  trace_id = trace_id;
}

-- `ProblemDetails::internal_server_error`
abbrev pub internal_server_error : String → ProblemDetails
internal_server_error trace_id = record {
  type_uri = some "https://www.rfc-editor.org/rfc/rfc9110#section-15.6.1";
  title = "An unexpected error occurred.";
  status = 500;
  detail = none;
  instance_uri = none;
  errors = none;
  trace_id = trace_id;
}

-- The loop of `validation_errors_from`.
unfoldable pub file_failures : List (String × String) → ValidationErrors → ValidationErrors
file_failures [] grouped = grouped
file_failures ((field, message) ∷ failures) grouped =
    let key = if is_empty (trim field) then "" else field in
    file_failures failures (insert key (add_message message (get_or [] (get key grouped))) grouped)

-- `validation_errors_from`
unfoldable pub validation_errors_from : List (String × String) → ValidationErrors
unfolding file_failures
validation_errors_from failures = file_failures failures []

-- The table of `problem_defaults`: a fragment and a title.
abbrev pub defaults_table : List (ℕ × (String × String))
defaults_table =
    (400, ("#section-15.5.1", "Bad Request"))
    ∷ (401, ("#section-15.5.2", "Unauthorized"))
    ∷ (403, ("#section-15.5.4", "Forbidden"))
    ∷ (404, ("#section-15.5.5", "Not Found"))
    ∷ (405, ("#section-15.5.6", "Method Not Allowed"))
    ∷ (406, ("#section-15.5.7", "Not Acceptable"))
    ∷ (409, ("#section-15.5.10", "Conflict"))
    ∷ (415, ("#section-15.5.16", "Unsupported Media Type"))
    ∷ (422, ("#section-15.5.21", "Unprocessable Entity"))
    ∷ (426, ("#section-15.5.22", "Upgrade Required"))
    ∷ (500, ("#section-15.6.1", "An error occurred while processing your request."))
    ∷ []

-- The arms of `default_type_for`, without the last.
abbrev pub types_table : List (String × String)
types_table =
    ("#section-15.5.1", "https://tools.ietf.org/html/rfc9110#section-15.5.1")
    ∷ ("#section-15.5.2", "https://tools.ietf.org/html/rfc9110#section-15.5.2")
    ∷ ("#section-15.5.4", "https://tools.ietf.org/html/rfc9110#section-15.5.4")
    ∷ ("#section-15.5.5", "https://tools.ietf.org/html/rfc9110#section-15.5.5")
    ∷ ("#section-15.5.6", "https://tools.ietf.org/html/rfc9110#section-15.5.6")
    ∷ ("#section-15.5.7", "https://tools.ietf.org/html/rfc9110#section-15.5.7")
    ∷ ("#section-15.5.10", "https://tools.ietf.org/html/rfc9110#section-15.5.10")
    ∷ ("#section-15.5.16", "https://tools.ietf.org/html/rfc9110#section-15.5.16")
    ∷ ("#section-15.5.21", "https://tools.ietf.org/html/rfc9110#section-15.5.21")
    ∷ ("#section-15.5.22", "https://tools.ietf.org/html/rfc9110#section-15.5.22")
    ∷ []

-- `default_type_for`
unfoldable pub default_type_for : String → String
unfolding get
default_type_for fragment =
    get_or "https://tools.ietf.org/html/rfc9110#section-15.6.1" (get fragment types_table)

-- `MalformedRequest`
pub record MalformedRequest : Type 0 where
  pub status : ℕ
  pub detail : String

-- `DataError`, over the type of a driver's error.
pub data DataError (Failure : Type 0) : Type 0 where
  database : Failure → DataError Failure

-- `ApiError`
pub data ApiError (Failure : Type 0) : Type 0 where
  unauthenticated : ApiError Failure
  forbidden : ApiError Failure
  not_found : ApiError Failure
  validation_failed : ValidationErrors → ApiError Failure
  malformed : MalformedRequest → ApiError Failure
  conflict : ApiError Failure
  data_failed : DataError Failure → ApiError Failure
  internal : ApiError Failure

-- A `Response` that a problem becomes: its status, its challenge and its document.
pub record Response : Type 0 where
  pub code : ℕ
  pub www_authenticate : Option String
  pub document : ProblemDetails

-- `found` of data.rs
abbrev pub found : {A F : Type 0} → Option A → Result A (ApiError F)
found none = err not_found
found (some value) = ok value

-- `matches!(self, Self::Unauthenticated)`
abbrev pub is_challenge : {F : Type 0} → ApiError F → Bool
is_challenge unauthenticated = true
is_challenge _ = false

abbrev pub challenge : {F : Type 0} → ApiError F → Option String
challenge error = if is_challenge error then some "Bearer" else none

module _ (canonical_reason : ℕ → Option String) where
  abbrev pub from_entry : ℕ → Option (String × String) → Option String × String
  from_entry status none = (none, get_or "Error" (canonical_reason status))
  from_entry status (some (fragment, title)) = (some (default_type_for fragment), title)

  -- `problem_defaults`
  unfoldable pub problem_defaults : ℕ → Option String × String
  unfolding get default_type_for
  problem_defaults status = from_entry status (get status defaults_table)

  -- `default_problem_type`
  abbrev pub default_problem_type : ℕ → Option String
  default_problem_type status = (problem_defaults status).0

  -- `status_code_page`
  unfoldable pub status_code_page : ℕ → String → ProblemDetails
  unfolding problem_defaults
  status_code_page status trace_id = record {
    type_uri = (problem_defaults status).0;
    title = (problem_defaults status).1;
    status = status;
    detail = none;
    instance_uri = none;
    errors = none;
    trace_id = trace_id;
  }

  -- `MalformedRequest::into_problem_with`
  unfoldable pub into_problem_with : MalformedRequest → String → ProblemDetails
  unfolding status_code_page
  into_problem_with request trace_id =
      if request.status == 400
      then malformed_request request.status request.detail trace_id
      else status_code_page request.status trace_id

  module _ {F : Type 0} where
    -- `ApiError::into_problem`
    unfoldable pub into_problem : ApiError F → String → ProblemDetails
    unfolding status_code_page into_problem_with
    into_problem unauthenticated trace_id = status_code_page 401 trace_id
    into_problem forbidden trace_id = status_code_page 403 trace_id
    into_problem not_found trace_id = status_code_page 404 trace_id
    into_problem (validation_failed errors) trace_id = validation errors trace_id
    into_problem (malformed request) trace_id = into_problem_with request trace_id
    into_problem conflict trace_id = status_code_page 409 trace_id
    into_problem (data_failed (database failure)) trace_id = internal_server_error trace_id
    into_problem internal trace_id = internal_server_error trace_id

    -- `into_response` of `ApiError`, with the request's trace id. The parameter `from_u16` is the
    -- http crate's.
    unfoldable pub into_response : (ℕ → Option ℕ) → ApiError F → String → Response
    unfolding into_problem
    into_response from_u16 error trace_id = record {
      code = get_or 500 (from_u16 (into_problem error trace_id).status);
      www_authenticate = challenge error;
      document = into_problem error trace_id;
    }
