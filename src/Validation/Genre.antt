-- ===== src/Validation/Genre.antt =====
-- What the genre rules of crates/module-admin/src/validation.rs and `required` of
-- crates/shared-kernel/src/validation.rs let through.
use Prim.Native.Char.{Char}
use rust_api_modular_monolit.Base.{
  ℕ, ◌≤◌, ◌≡◌, ◌≢◌, ◌↔◌, refl, sym, ap, ◌∙◌, String, Bool, true, false, List, [], ◌∷◌, ◌++◌, Option,
  none, some, arith, eq_string, Bool-cases, inl, inr, ltb, get_or, All,
}
use rust_api_modular_monolit.Base.Map.{insert}
use rust_api_modular_monolit.Base.Result.{ok, map_err}
use rust_api_modular_monolit.Base.Text.{trim, is_empty, count_chars, is_blank, is_empty-trim}
use rust_api_modular_monolit.Validation.{
  ValidationFailure, genre_request_rules, validate_genre, not_null, not_empty, max_length,
  is_missing, required, finish, group, fail_when,
}

append-nonempty :
    (rules : List ValidationFailure) (failure : ValidationFailure) → rules ++ failure ∷ [] ≢ []
append-nonempty [] failure h = cc
append-nonempty (r ∷ rules) failure h = cc

fail_when-accepts :
    (bad : Bool) (property message : String) (rules : List ValidationFailure)
    → (fail_when bad property message rules ≡ []) ↔ ((bad ≡ false) × (rules ≡ []))
fail_when-accepts true property message rules = (
  λ h. absurd (append-nonempty rules (record { property_name = property; message = message }) h),
  λ h. cc (h.0),
)
fail_when-accepts false property message rules = (λ h. (refl, h), λ h. h.1)

finish-accepts :
    (rules : List ValidationFailure) → (map_err group (finish rules) ≡ ok tt) ↔ (rules ≡ [])
finish-accepts [] = (λ _. refl, λ _. refl)
finish-accepts (r ∷ rules) = (λ h. cc, λ h. cc)

module _ (is_uppercase : Char → Bool) (print : ℕ → String) where
  -- A genre's name is accepted by the endpoint's validators exactly when it is there, is not blank
  -- and has at most 120 characters.
  genre_request_rules-accepts :
      (name : Option String)
      → (genre_request_rules is_uppercase print name ≡ []) ↔ (
          (text : String) × (name ≡ some text) × (is_blank text ≡ false) × (count_chars text ≤ 120))
  unfolding genre_request_rules max_length not_empty
  genre_request_rules-accepts none = (λ h. cc, λ h. cc (h.1))
  genre_request_rules-accepts (some text) =
      let short =
        fail_when-accepts (ltb 120 (count_chars text)) _ _
          (not_empty is_uppercase print "Name" (some text) []) in
      let there = fail_when-accepts (is_empty (trim text)) _ _ [] in
      (
        λ h.
            let (fits, rest) = short.0 h in
            (text, refl, sym (is_empty-trim text) ∙ (there.0 rest).0, ground arith),
        λ h.
            let same : text ≡ h.0 = ap (get_or text) h.1 in
            let solid : is_blank text ≡ false = rw same h.2 in
            let fits : count_chars text ≤ 120 = rw same h.3 in
            short.1 (ground arith, there.1 (is_empty-trim text ∙ solid, refl)),
      )

  -- The service's own check accepts a blank name: it asks that the name be there and have at most
  -- 120 characters.
  validate_genre-accepts :
      (name : Option String)
      → (validate_genre is_uppercase print name ≡ ok tt)
        ↔ ((text : String) × (name ≡ some text) × (count_chars text ≤ 120))
  unfolding validate_genre max_length not_null
  validate_genre-accepts none = (λ h. cc, λ h. cc (h.1))
  validate_genre-accepts (some text) =
      let short = fail_when-accepts (ltb 120 (count_chars text)) _ _ [] in
      let whole = finish-accepts (max_length is_uppercase print "Name" (some text) 120 []) in
      (
        λ h. (text, refl, ground (arith, (short.0 (whole.0 h)).0)),
        λ h.
            let same : text ≡ h.0 = ap (get_or text) h.1 in
            let fits : count_chars text ≤ 120 = rw same h.2 in
            whole.1 (short.1 (ground arith, refl)),
      )

-- `required` accepts exactly the requests whose every field is there and is not blank.
required-accepts :
    (fields : List (String × Option String))
    → (required fields ≡ []) ↔ All (λ field. is_missing field.1 ≡ false) fields
unfolding required insert
required-accepts [] = (λ _. tt, λ _. refl)
required-accepts ((field, value) ∷ fields) =
    let rest = required-accepts fields in
    elim (Bool-cases (is_missing value)) [
      | inl e ↦ rw (e, required) (λ h. cc, λ h. absurd (ground (arith, h.0)))
      | inr e ↦ rw (e, required) (λ h. (refl, rest.0 h), λ h. rest.1 h.1)
    ]
