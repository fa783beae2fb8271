-- ===== src/Validation/Tests.antt =====
-- Two failures of one message on a genre's name.
use rust_api_modular_monolit.Base.{◌≡◌, List, [], ◌∷◌, eq_string, contains}
use rust_api_modular_monolit.Validation.{ValidationFailure, group}
use rust_api_modular_monolit.Validation.Grouping.{messages_of, fails_with, Distinct, group-messages}

abbrev failures : List ValidationFailure
failures =
    record { property_name = "Name"; message = "m" }
    ∷ record { property_name = "Name"; message = "m" }
    ∷ []

group-messages_example :
    (contains (messages_of "Name" (group failures)) "m" ≡ fails_with "Name" "m" failures)
    × Distinct (messages_of "Name" (group failures))
group-messages_example = group-messages "Name" "m" failures
