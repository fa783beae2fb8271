-- ===== src/Validation.antt =====
-- crates/validation-rules/src/lib.rs, `required` of crates/shared-kernel/src/validation.rs, and the
-- rules of crates/module-admin/src/validation.rs. `char::is_uppercase`, a pattern's `is_match` and
-- the printing of numbers are parameters. A `BTreeMap` is an association list; its order, which
-- shows in the serialized answer alone, is not kept.
pub mod Grouping
pub mod Display
pub mod Genre
mod Tests
use Prim.Native.Char.{Char, code}
use Prim.Native.String.{[] as nil, ◌∷◌ as cons}
use rust_api_modular_monolit.Base.{
  ℕ, suc, ◌≡◌, refl, String, Bool, true, false, not, ◌&&◌, ◌||◌, List, [], ◌∷◌, ◌++◌, Option, none,
  some, ◌==◌, eq_string, if◌then◌else◌, ltb, get_or, contains,
}
use rust_api_modular_monolit.Base.Map.{get, insert}
use rust_api_modular_monolit.Base.Result.{Result, ok, err, map_err}
use rust_api_modular_monolit.Base.Text.{format, trim, is_empty, count_chars}

-- `ValidationFailure`
pub record ValidationFailure : Type 0 where
  pub property_name : String
  pub message : String

-- `Rules`: the failures so far.
abbrev pub Rules : Type 0
Rules = List ValidationFailure

-- `ValidationErrors`
abbrev pub ValidationErrors : Type 0
ValidationErrors = List (String × List String)

abbrev pub add_message : String → List String → List String
add_message message messages =
    if contains messages message then messages else messages ++ message ∷ []

-- The loop of `group`.
unfoldable pub group_into : List ValidationFailure → ValidationErrors → ValidationErrors
group_into [] errors = errors
group_into (failure ∷ failures) errors = group_into failures (
    insert failure.property_name
      (add_message failure.message (get_or [] (get failure.property_name errors))) errors)

-- `group`
unfoldable pub group : List ValidationFailure → ValidationErrors
unfolding group_into
group failures = group_into failures []

-- `finish`
abbrev pub finish : Rules → Result Unit (List ValidationFailure)
finish [] = ok tt
finish (failure ∷ failures) = err (failure ∷ failures)

-- `fail`
abbrev pub fail : String → String → Rules → Rules
fail property message rules = rules ++ record { property_name = property; message = message } ∷ []

abbrev pub fail_when : Bool → String → String → Rules → Rules
fail_when bad property message rules = if bad then fail property message rules else rules

abbrev pub is_missing : Option String → Bool
is_missing none = true
is_missing (some text) = is_empty (trim text)

module _ (is_uppercase : Char → Bool) where
  abbrev starts_lower : String → Bool
  starts_lower nil = false
  starts_lower (cons c s) = not (is_uppercase c)

  -- The loop of `split_pascal_case`, from an index on, with whether the character before is upper
  -- case.
  unfoldable pub split_from : ℕ → Bool → String → String
  split_from index previous nil = nil
  split_from index previous (cons c s) =
      let rest = split_from (suc index) (is_uppercase c) s in
      if is_uppercase c && ((ltb 1 index && not previous) || starts_lower s)
      then cons " " (cons c rest)
      else cons c rest

  -- `split_pascal_case`
  unfoldable pub split_pascal_case : String → String
  unfolding split_from
  split_pascal_case name = trim (split_from 0 false name)

  module _ (print : ℕ → String) where
    -- `not_empty_message` and `not_null_message`
    abbrev pub not_empty_message : String → String
    not_empty_message display = format ("'" ∷ display ∷ "' must not be empty." ∷ [])

    -- `max_length_message`
    abbrev pub max_length_message : String → ℕ → ℕ → String
    max_length_message display max actual = format (
        "The length of '"
        ∷ display
        ∷ "' must be "
        ∷ print max
        ∷ " characters or fewer. You entered "
        ∷ print actual
        ∷ " characters."
        ∷ [])

    -- `min_length_message`
    abbrev pub min_length_message : String → ℕ → ℕ → String
    min_length_message display min actual = format (
        "The length of '"
        ∷ display
        ∷ "' must be at least "
        ∷ print min
        ∷ " characters. You entered "
        ∷ print actual
        ∷ " characters."
        ∷ [])

    -- `not_null`
    unfoldable pub not_null : {A : Type 0} → String → Option A → Rules → Rules
    not_null property none rules =
        fail property (not_empty_message (split_pascal_case property)) rules
    not_null property (some value) rules = rules

    -- `not_empty`
    unfoldable pub not_empty : String → Option String → Rules → Rules
    not_empty property value rules =
        fail_when (is_missing value) property (not_empty_message (split_pascal_case property)) rules

    -- `max_length`
    unfoldable pub max_length : String → Option String → ℕ → Rules → Rules
    max_length property none max rules = rules
    max_length property (some text) max rules =
        fail_when (ltb max (count_chars text)) property
          (max_length_message (split_pascal_case property) max (count_chars text)) rules

    -- `min_length`
    unfoldable pub min_length : String → Option String → ℕ → Rules → Rules
    min_length property none min rules = rules
    min_length property (some text) min rules =
        fail_when (ltb (count_chars text) min) property
          (min_length_message (split_pascal_case property) min (count_chars text)) rules

    -- `matches`, and `email` with its own pattern and message.
    unfoldable pub matches : (String → Bool) → String → String → Option String → Rules → Rules
    matches is_match ending property none rules = rules
    matches is_match ending property (some text) rules =
        fail_when (not (is_match text)) property
          (format ("'" ∷ split_pascal_case property ∷ ending ∷ [])) rules

    -- `genre_request_rules`
    unfoldable pub genre_request_rules : Option String → List ValidationFailure
    unfolding not_empty max_length
    genre_request_rules name = max_length "Name" name 120 (not_empty "Name" name [])

    -- `CreateGenreRequestValidator` and `UpdateGenreRequestValidator`
    unfoldable pub validate_genre_request : Option String → ValidationErrors
    unfolding genre_request_rules
    validate_genre_request name = group (genre_request_rules name)

    -- `validate_genre`
    unfoldable pub validate_genre : Option String → Result Unit ValidationErrors
    unfolding not_null max_length
    validate_genre name =
        map_err group (finish (max_length "Name" name 120 (not_null "Name" name [])))

-- `required`
unfoldable pub required : List (String × Option String) → ValidationErrors
required [] = []
required ((field, value) ∷ fields) =
    let rest = required fields in
    if is_missing value
    then insert field (format ("'" ∷ field ∷ "' is required." ∷ []) ∷ []) rest
    else rest
