-- ===== src/Problems/Answers.antt =====
-- What a client is told of each `ApiError` of crates/shared-kernel/src/errors.rs.
use rust_api_modular_monolit.Base.{
  ℕ, ◌≡◌, refl, String, Option, none, some, ◌≤◌, ◌↔◌, arith, eq_nat, get_or, ap, sym, ◌∙◌,
}
use rust_api_modular_monolit.Validation.{ValidationErrors}
use rust_api_modular_monolit.Problems.{
  ApiError, Response, unauthenticated, forbidden, not_found, validation_failed, malformed, conflict,
  data_failed, internal, database, into_problem, into_problem_with, status_code_page, into_response,
  challenge,
}

module _ {F : Type 0} where
  -- A `StatusCode` is between 100 and 999.
  abbrev pub HasStatus : ApiError F → Type 0
  HasStatus (malformed request) = (100 ≤ request.status) × (request.status ≤ 999)
  HasStatus _ = Unit

  -- The status of each error.
  abbrev pub status_of : ApiError F → ℕ
  status_of unauthenticated = 401
  status_of forbidden = 403
  status_of not_found = 404
  status_of (validation_failed errors) = 400
  status_of (malformed request) = request.status
  status_of conflict = 409
  status_of (data_failed failure) = 500
  status_of internal = 500

  -- The messages by field that an error carries.
  abbrev pub errors_of : ApiError F → Option ValidationErrors
  errors_of (validation_failed errors) = some errors
  errors_of _ = none

  -- What an answer to an error keeps to.
  pub record IsAnswer (error : ApiError F) (trace_id : String) (response : Response) : Type 0 where
    pub coded : response.code ≡ status_of error
    pub agrees : response.document.status ≡ response.code
    pub challenges : (response.www_authenticate ≡ some "Bearer") ↔ (error ≡ unauthenticated)
    pub traced : response.document.trace_id ≡ trace_id
    pub told : response.document.errors ≡ errors_of error
    pub quiet : response.code ≡ 500 → response.document.detail ≡ none

module _ (canonical_reason : ℕ → Option String) {F : Type 0} where
  into_problem-status :
      (error : ApiError F) (trace_id : String)
      → (into_problem canonical_reason error trace_id).status ≡ status_of error
  unfolding into_problem status_code_page into_problem_with
  into_problem-status unauthenticated trace_id = refl
  into_problem-status forbidden trace_id = refl
  into_problem-status not_found trace_id = refl
  into_problem-status (validation_failed errors) trace_id = refl
  into_problem-status (malformed request) trace_id = ground arith
  into_problem-status conflict trace_id = refl
  into_problem-status (data_failed (database failure)) trace_id = refl
  into_problem-status internal trace_id = refl

  into_problem-traced :
      (error : ApiError F) (trace_id : String)
      → (into_problem canonical_reason error trace_id).trace_id ≡ trace_id
  unfolding into_problem status_code_page into_problem_with
  into_problem-traced unauthenticated trace_id = refl
  into_problem-traced forbidden trace_id = refl
  into_problem-traced not_found trace_id = refl
  into_problem-traced (validation_failed errors) trace_id = refl
  into_problem-traced (malformed request) trace_id = ground arith
  into_problem-traced conflict trace_id = refl
  into_problem-traced (data_failed (database failure)) trace_id = refl
  into_problem-traced internal trace_id = refl

  into_problem-errors :
      (error : ApiError F) (trace_id : String)
      → (into_problem canonical_reason error trace_id).errors ≡ errors_of error
  unfolding into_problem status_code_page into_problem_with
  into_problem-errors unauthenticated trace_id = refl
  into_problem-errors forbidden trace_id = refl
  into_problem-errors not_found trace_id = refl
  into_problem-errors (validation_failed errors) trace_id = refl
  into_problem-errors (malformed request) trace_id = ground arith
  into_problem-errors conflict trace_id = refl
  into_problem-errors (data_failed (database failure)) trace_id = refl
  into_problem-errors internal trace_id = refl

  into_problem-quiet :
      (error : ApiError F) (trace_id : String)
      → status_of error ≡ 500
      → (into_problem canonical_reason error trace_id).detail ≡ none
  unfolding into_problem status_code_page into_problem_with
  into_problem-quiet unauthenticated trace_id h = refl
  into_problem-quiet forbidden trace_id h = refl
  into_problem-quiet not_found trace_id h = refl
  into_problem-quiet (validation_failed errors) trace_id h = ground arith
  into_problem-quiet (malformed request) trace_id h = ground arith
  into_problem-quiet conflict trace_id h = refl
  into_problem-quiet (data_failed (database failure)) trace_id h = refl
  into_problem-quiet internal trace_id h = refl

status_of-range :
    {F : Type 0} (error : ApiError F)
    → HasStatus error
    → (100 ≤ status_of error) × (status_of error ≤ 999)
status_of-range unauthenticated h = omega arith
status_of-range forbidden h = omega arith
status_of-range not_found h = omega arith
status_of-range (validation_failed errors) h = omega arith
status_of-range (malformed request) h = h
status_of-range conflict h = omega arith
status_of-range (data_failed failure) h = omega arith
status_of-range internal h = omega arith

challenge-unauthenticated :
    {F : Type 0} (error : ApiError F)
    → (challenge error ≡ some "Bearer") ↔ (error ≡ unauthenticated)
challenge-unauthenticated unauthenticated = (λ h. refl, λ h. refl)
challenge-unauthenticated forbidden = ground arith
challenge-unauthenticated not_found = ground arith
challenge-unauthenticated (validation_failed errors) = ground arith
challenge-unauthenticated (malformed request) = ground arith
challenge-unauthenticated conflict = ground arith
challenge-unauthenticated (data_failed failure) = ground arith
challenge-unauthenticated internal = ground arith

-- Every error is answered with its own status, in the header and in the document, and with the
-- request's trace id; the challenge is there exactly for a missing token, the messages by field
-- are those of a failed validation, and a 500 tells no detail. A status is between 100 and 999,
-- where `from_u16` gives it back.
pub into_response-IsAnswer :
    (canonical_reason : ℕ → Option String) (from_u16 : ℕ → Option ℕ)
    (in_range : (status : ℕ) → 100 ≤ status → status ≤ 999 → from_u16 status ≡ some status)
    {F : Type 0} (error : ApiError F) (trace_id : String)
    → HasStatus error
    → IsAnswer error trace_id (into_response canonical_reason from_u16 error trace_id)
unfolding into_response
into_response-IsAnswer canonical_reason from_u16 in_range error trace_id h =
    let problem = into_problem canonical_reason error trace_id in
    let status : problem.status ≡ status_of error =
      into_problem-status canonical_reason error trace_id in
    let range = status_of-range error h in
    let code : get_or 500 (from_u16 problem.status) ≡ status_of error =
      ap (λ s. get_or 500 (from_u16 s)) status ∙ ap (get_or 500) (in_range _ range.0 range.1) in
    record {
      coded = code;
      agrees = status ∙ sym code;
      challenges = challenge-unauthenticated error;
      traced = into_problem-traced canonical_reason error trace_id;
      told = into_problem-errors canonical_reason error trace_id;
      quiet = λ e. into_problem-quiet canonical_reason error trace_id (sym code ∙ e);
    }
