-- ===== src/Problems/Tests.antt =====
-- Runs of the error answers.
use rust_api_modular_monolit.Base.{
  ℕ, ◌≡◌, refl, String, List, [], ◌∷◌, Option, none, some, ◌≤◌, ◌&&◌, leb, if◌then◌else◌, contains,
  eq_string, arith, not, nat_eq, true, false,
}
use rust_api_modular_monolit.Problems.{
  ApiError, malformed, validation_errors_from, problem_defaults, into_response,
}
use rust_api_modular_monolit.Validation.Grouping.{messages_of, Distinct}
use rust_api_modular_monolit.Problems.Trace.{is_traceparent, new_trace_id}
use rust_api_modular_monolit.Problems.Minting.{new_trace_id-is_traceparent}
use rust_api_modular_monolit.Problems.Answers.{IsAnswer, into_response-IsAnswer}
use rust_api_modular_monolit.Problems.Filing.{files, validation_errors_from-messages}

-- `StatusCode::canonical_reason`, of one status.
abbrev reason : ℕ → Option String
reason status = some "Too Many Requests"

-- `StatusCode::from_u16`
abbrev from_u16 : ℕ → Option ℕ
from_u16 status = if leb 100 status && leb status 999 then some status else none

from_u16-in_range : (status : ℕ) → 100 ≤ status → status ≤ 999 → from_u16 status ≡ some status
from_u16-in_range status low high = ground arith

abbrev unsupported : ApiError ℕ
unsupported = malformed (record { status = 415; detail = "no type" })

into_response-IsAnswer_example :
    IsAnswer unsupported "t" (into_response reason from_u16 unsupported "t")
into_response-IsAnswer_example =
    into_response-IsAnswer reason from_u16 from_u16-in_range unsupported "t"
      (omega arith, omega arith)

abbrev failures : List (String × String)
failures = ("Name", "m") ∷ (" ", "n") ∷ ("Name", "m") ∷ []

validation_errors_from-messages_example :
    (contains (messages_of "" (validation_errors_from failures)) "n" ≡ files "" "n" failures)
    × Distinct (messages_of "" (validation_errors_from failures))
validation_errors_from-messages_example = validation_errors_from-messages "" "n" failures

defaults_429 : problem_defaults reason 429 ≡ (none, "Too Many Requests")
unfolding problem_defaults
defaults_429 = refl

new_trace_id-is_traceparent_example :
    is_traceparent (new_trace_id 255 0) ≡ (not (nat_eq 255 0) && not (nat_eq 0 0))
new_trace_id-is_traceparent_example = new_trace_id-is_traceparent 255 0 (omega arith) (omega arith)

accepts_minted : is_traceparent "00-000000000000000000000000000000ff-000000000000000a-00" ≡ true
unfolding is_traceparent
accepts_minted = refl

refuses_short : is_traceparent "00-ff-000000000000000a-00" ≡ false
unfolding is_traceparent
refuses_short = refl
