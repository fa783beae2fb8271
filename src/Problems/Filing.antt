-- ===== src/Problems/Filing.antt =====
-- `validation_errors_from` of crates/shared-kernel/src/errors.rs, beside `group` of
-- crates/validation-rules/src/lib.rs, which has the same loop without the blank fields.
use rust_api_modular_monolit.Base.{
  ◌≡◌, refl, sym, subst, ◌∙◌, ap, String, Bool, List, [], ◌∷◌, map, contains, eq_string,
  if◌then◌else◌, any, ◌==◌, ◌&&◌,
}
use rust_api_modular_monolit.Base.Text.{is_blank, is_empty-trim}
use rust_api_modular_monolit.Validation.{ValidationFailure, ValidationErrors, group, group_into}
use rust_api_modular_monolit.Validation.Grouping.{messages_of, Distinct, fails_with, group-messages}
use rust_api_modular_monolit.Problems.{file_failures, validation_errors_from}

-- The field that a failure is filed under: a blank one under the empty name.
abbrev pub field_of : String → String
field_of field = if is_blank field then "" else field

-- A message is among the failures that are filed under a field.
abbrev pub files : String → String → List (String × String) → Bool
files field message = any (λ failure. field_of failure.0 == field && failure.1 == message)

abbrev as_failure : String × String → ValidationFailure
as_failure (field, message) = record { property_name = field_of field; message = message }

file_failures-group_into :
    (failures : List (String × String)) (errors : ValidationErrors)
    → file_failures failures errors ≡ group_into (map as_failure failures) errors
unfolding file_failures group_into
file_failures-group_into [] errors = refl
file_failures-group_into ((field, message) ∷ failures) errors =
    rw (is_empty-trim field) (file_failures-group_into failures _)

fails_with-files :
    (field message : String) (failures : List (String × String))
    → fails_with field message (map as_failure failures) ≡ files field message failures
fails_with-files field message [] = refl
fails_with-files field message (failure ∷ failures) =
    rw (fails_with-files field message failures) refl

-- A message stands under a field of the problem's errors exactly when a failure has both, where a
-- failure whose field is blank counts as one of the empty field, and it stands there once.
pub validation_errors_from-messages :
    (field message : String) (failures : List (String × String))
    → (contains (messages_of field (validation_errors_from failures)) message
        ≡ files field message failures)
      × Distinct (messages_of field (validation_errors_from failures))
unfolding validation_errors_from group
validation_errors_from-messages field message failures =
    let same = sym (file_failures-group_into failures []) in
    let grouped = group-messages field message (map as_failure failures) in
    (
      ap (λ errors. contains (messages_of field errors) message) (sym same)
          ∙ grouped.0
          ∙ fails_with-files field message failures,
      subst (λ errors. Distinct (messages_of field errors)) same grouped.1,
    )
