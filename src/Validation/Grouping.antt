-- ===== src/Validation/Grouping.antt =====
-- `group` of crates/validation-rules/src/lib.rs.
use rust_api_modular_monolit.Base.{
  ◌≡◌, refl, sym, ap, subst, ◌∙◌, String, Bool, false, ◌&&◌, ◌||◌, List, [], ◌∷◌, ◌++◌, arith, ◌==◌,
  eq_string, if◌then◌else◌, contains, any, get_or, Bool-cases, inl, inr, if_both, beq_comm,
}
use rust_api_modular_monolit.Base.Map.{get, insert, get-insert}
use rust_api_modular_monolit.Validation.{
  ValidationFailure, ValidationErrors, add_message, group_into, group,
}

-- The messages of a property.
abbrev pub messages_of : String → ValidationErrors → List String
messages_of property errors = get_or [] (get property errors)

-- A message is among the failures of a property.
abbrev pub fails_with : String → String → List ValidationFailure → Bool
fails_with property message =
    any (λ failure. failure.property_name == property && failure.message == message)

-- No text stands twice.
abbrev pub Distinct : List String → Type 0
Distinct [] = Unit
Distinct (text ∷ texts) = (contains texts text ≡ false) × Distinct texts

contains-append :
    (xs : List String) (a m : String) → contains (xs ++ a ∷ []) m ≡ (contains xs m || a == m)
contains-append [] a m = ground arith
contains-append (x ∷ xs) a m = ground (arith, contains-append xs a m)

append-Distinct :
    (xs : List String) (a : String) → contains xs a ≡ false → Distinct xs → Distinct (xs ++ a ∷ [])
append-Distinct [] a new unique = (refl, tt)
append-Distinct (x ∷ xs) a new unique =
    ground (arith, contains-append xs a x, append-Distinct xs a, beq_comm a x)

contains-add_message :
    (message m : String) (messages : List String)
    → contains (add_message message messages) m ≡ (contains messages m || message == m)
contains-add_message message m messages =
    ground (arith, contains-append messages message m, eq_string.equals_iff message m)

add_message-Distinct :
    (message : String) (messages : List String)
    → Distinct messages
    → Distinct (add_message message messages)
add_message-Distinct message messages unique = ground (arith, append-Distinct messages message)

messages_of-insert :
    (property p : String) (messages : List String) (errors : ValidationErrors)
    → messages_of p (insert property messages errors)
      ≡ (if property == p then messages else messages_of p errors)
messages_of-insert property p messages errors =
    ground (arith, get-insert property p messages errors)

messages_of-group_into :
    (property message : String) (failures : List ValidationFailure) (errors : ValidationErrors)
    → contains (messages_of property (group_into failures errors)) message
      ≡ (contains (messages_of property errors) message || fails_with property message failures)
unfolding group_into
messages_of-group_into property message [] errors = ground arith
messages_of-group_into property message (failure ∷ failures) errors =
    let p = failure.property_name in
    let m = failure.message in
    let added = add_message m (messages_of p errors) in
    let rest = messages_of-group_into property message failures (insert p added errors) in
    elim (Bool-cases (p == property)) [
      | inl e ↦
          let same : p ≡ property = (eq_string.equals_iff p property).0 e in
          let here : messages_of property (insert p added errors) ≡ added =
            messages_of-insert p property added errors ∙ rw e refl in
          let inner : contains (messages_of property (insert p added errors)) message
              ≡ (contains (messages_of property errors) message || m == message) =
            ap (λ ms. contains ms message) here
            ∙ contains-add_message m message (messages_of p errors)
            ∙ rw same refl in
          ground (arith, rest, inner, e)
      | inr e ↦
          let inner : messages_of property (insert p added errors) ≡ messages_of property errors =
            messages_of-insert p property added errors ∙ rw e refl in
          ground (arith, rest, ap (λ ms. contains ms message) inner, e)
    ]

group_into-Distinct :
    (property : String) (failures : List ValidationFailure) (errors : ValidationErrors)
    → ((p : String) → Distinct (messages_of p errors))
    → Distinct (messages_of property (group_into failures errors))
unfolding group_into
group_into-Distinct property [] errors unique = unique property
group_into-Distinct property (failure ∷ failures) errors unique =
    group_into-Distinct property failures _ (λ p.
      let added = add_message failure.message (messages_of failure.property_name errors) in
      subst Distinct (sym (messages_of-insert failure.property_name p added errors)) (
        if_both Distinct (failure.property_name == p) added (messages_of p errors)
          (add_message-Distinct failure.message _ (unique failure.property_name)) (unique p)))

-- The grouped errors are the failures: a message stands under a property exactly when a failure
-- has that property and that message, and it stands there once.
pub group-messages :
    (property message : String) (failures : List ValidationFailure)
    → (contains (messages_of property (group failures)) message
        ≡ fails_with property message failures)
      × Distinct (messages_of property (group failures))
unfolding group get
group-messages property message failures = (
  messages_of-group_into property message failures [],
  group_into-Distinct property failures [] (λ p. tt),
)
