-- ===== src/Configuration/Tests.antt =====
-- Runs of the configuration, on the inputs of the tests of crates/shared-kernel/src/config.rs.
use rust_api_modular_monolit.Base.{
  ◌≡◌, refl, String, true, List, [], ◌∷◌, Option, none, some, eq_string,
}
use rust_api_modular_monolit.Base.Text.{is_whitespace, split_double, parse_usize}
use rust_api_modular_monolit.Configuration.Json.{
  Value, string, array, object, empty, item, end, field, walk, get_field,
}
use rust_api_modular_monolit.Configuration.Environments.{development, demo, from_name}
use rust_api_modular_monolit.Configuration.{merge_layer}
use rust_api_modular_monolit.Configuration.Loading.{
  environment_layer, lowercase_keys, load_layers, get_string, Sources, missing, read, segments_of,
}
use rust_api_modular_monolit.Configuration.Layers.{merge_layer-wins, unambiguous}
use rust_api_modular_monolit.Configuration.Variables.{load_layers-variable}

-- `to_lowercase` of a text that is small already.
abbrev lower : String → String
lower s = s

abbrev parse_json : String → Option Value
parse_json text = some (object (field "servicename" (string "file") end))

abbrev user : String → String → Value
user name password =
    object (field "username" (string name) (field "password" (string password) end))

abbrev users : Value
users =
    object
      (field "users" (array (item (user "first" "one") (item (user "second" "two") empty))) end)

abbrev one_password : Value
one_password =
    object
      (field "users" (object (field "1" (object (field "password" (string "new") end)) end)) end)

merged_password :
    walk ("users" ∷ "1" ∷ "password" ∷ []) (merge_layer users one_password) ≡ some (string "new")
unfolding walk merge_layer parse_usize
merged_password = refl

merge_layer-wins_example :
    walk ("users" ∷ "1" ∷ "password" ∷ []) (merge_layer users one_password) ≡ some (string "new")
unfolding walk unambiguous parse_usize
merge_layer-wins_example =
    merge_layer-wins ("users" ∷ "1" ∷ "password" ∷ []) users one_password (string "new") refl refl
      refl

-- Names that are no indices replace an array, elements of which the layer says nothing.
array_replaced :
    walk ("a" ∷ "0" ∷ []) (
      merge_layer
        (object (field "a" (array (item (string "x") empty)) end))
        (object (field "a" (object (field "k" (string "v") end)) end)))
    ≡ none
unfolding walk merge_layer parse_usize get_field
array_replaced = refl

abbrev variables : List (String × String)
variables =
    ("users__0__username", "demo") ∷ ("servicename", "host") ∷ ("users__0__password", "x") ∷ []

array_of_variables :
    walk ("users" ∷ "0" ∷ "password" ∷ []) (environment_layer lower variables) ≡ some (string "x")
unfolding walk environment_layer parse_usize
array_of_variables = refl

-- Keys that are joined by colons nest, as those of `secrets.json` do.
nested_keys :
    walk ("a" ∷ "b" ∷ []) (lowercase_keys lower (object (field "a:b" (string "c") end)))
    ≡ some (string "c")
unfolding walk lowercase_keys parse_usize
nested_keys = refl

abbrev sources : Sources
sources = record {
  settings = read "{}";
  environment_settings = missing;
  user_secrets_path = none;
  variables = variables;
}

abbrev loaded : Value
loaded =
    merge_layer (merge_layer (object end) (object (field "servicename" (string "file") end)))
      (environment_layer lower variables)

load_layers-variable_example : get_string lower loaded "servicename" ≡ some "host"
unfolding load_layers segments_of unambiguous environment_layer lowercase_keys split_double
    parse_usize
load_layers-variable_example =
    load_layers-variable lower parse_json sources development true loaded
      (("users__0__username", "demo") ∷ []) "servicename" "host" (("users__0__password", "x") ∷ [])
      "servicename" refl refl (refl, tt) refl refl

spelled_anyhow : from_name " dEMO " ≡ demo
unfolding from_name is_whitespace
spelled_anyhow = refl
