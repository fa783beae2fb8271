-- ===== src/Configuration/Loading.antt =====
-- How the layers of crates/shared-kernel/src/config.rs are read, merged and looked up.
use rust_api_modular_monolit.Base.{
  String, Bool, true, false, ◌&&◌, List, [], ◌∷◌, Option, none, some, eq_string, get_or, map,
  eq_nat,
}
use rust_api_modular_monolit.Base.Result.{Result, ok, err, ◌>>=◌}
use rust_api_modular_monolit.Base.Text.{split_on, split_double, replace_char}
use rust_api_modular_monolit.Configuration.Environments.{Environment, exposes_operational_metadata}
use rust_api_modular_monolit.Configuration.Json.{
  Value, Items, Fields, null, boolean, number, string, array, object, empty, item, end, field, walk,
}
use rust_api_modular_monolit.Configuration.{
  merge_layer, insert_at, numeric_maps_to_arrays, merge_at,
}

-- What the file system answers: no file, an error, or a text without its byte-order mark.
pub data FileRead : Type 0 where
  missing : FileRead
  unreadable : FileRead
  read : String → FileRead

-- `ConfigError`
pub data ConfigError : Type 0 where
  read_error parse_error : ConfigError

-- What `load_layers` reads: three files and the variables of the process.
pub record Sources : Type 0 where
  pub settings : FileRead
  pub environment_settings : FileRead
  pub user_secrets_path : Option FileRead
  pub variables : List (String × String)

module _ (to_lowercase : String → String) where
  unfoldable mutual
    unfolding merge_at numeric_maps_to_arrays split_on

    -- `lowercase_keys`
    pub lowercase_keys : Value → Value
    lowercase_keys (object fs) = numeric_maps_to_arrays (object (lowercase_fields end fs))
    lowercase_keys (array xs) = array (lowercase_items xs)
    lowercase_keys null = null
    lowercase_keys (boolean b) = boolean b
    lowercase_keys (number n) = number n
    lowercase_keys (string t) = string t

    pub lowercase_fields : Fields → Fields → Fields
    lowercase_fields root end = root
    lowercase_fields root (field k v fs) =
        lowercase_fields (merge_at root (map to_lowercase (split_on 58 k)) (lowercase_keys v)) fs

    pub lowercase_items : Items → Items
    lowercase_items empty = empty
    lowercase_items (item v xs) = item (lowercase_keys v) (lowercase_items xs)

  -- The path of a variable's name.
  abbrev pub path_of : String → List String
  path_of name = map to_lowercase (split_double 95 name)

  -- The loop of `environment_layer`.
  unfoldable pub insert_variables : Fields → List (String × String) → Fields
  unfolding insert_at split_double
  insert_variables root [] = root
  insert_variables root ((name, value) ∷ variables) =
      insert_variables (insert_at root (path_of name) (string value)) variables

  -- `environment_layer`
  unfoldable pub environment_layer : List (String × String) → Value
  unfolding insert_variables numeric_maps_to_arrays
  environment_layer variables = numeric_maps_to_arrays (object (insert_variables end variables))

  -- `normalize_key`, split as `value_at` splits it.
  unfoldable pub segments_of : String → List String
  unfolding split_on replace_char
  segments_of key = split_on 46 (to_lowercase (replace_char 58 "." key))

  -- `value_at`
  unfoldable pub value_at : Value → String → Option Value
  unfolding segments_of walk
  value_at config key = walk (segments_of key) config

  abbrev text_of : Value → Option String
  text_of (string text) = some text
  text_of (number text) = some text
  text_of (boolean true) = some "true"
  text_of (boolean false) = some "false"
  text_of _ = none

  -- `get_string`
  unfoldable pub get_string : Value → String → Option String
  unfolding value_at
  get_string config key = elim (value_at config key) [ none ↦ none | some v ↦ text_of v ]

  -- `get_or`, with `parse` after `trim`.
  abbrev pub config_or : {A : Type 0} → (String → Option A) → Value → String → A → A
  config_or parse config key default = elim (get_string config key) [
    | none ↦ default
    | some text ↦ get_or default (parse text)
  ]

  module _ (parse_json : String → Option Value) where
    -- `read_json_layer`
    unfoldable pub read_json_layer : FileRead → Result (Option Value) ConfigError
    unfolding lowercase_keys
    read_json_layer missing = ok none
    read_json_layer unreadable = err read_error
    read_json_layer (read text) = elim (parse_json text) [
      | none ↦ err parse_error
      | some value ↦ ok (some (lowercase_keys value))
    ]

    abbrev pub merge_optional : Value → Option Value → Value
    merge_optional merged none = merged
    merge_optional merged (some values) = merge_layer merged values

    -- The user secrets, read where they are asked for, the environment is one that has them, and
    -- there is a path.
    abbrev pub read_secrets : Bool → Option FileRead → Result (Option Value) ConfigError
    read_secrets false path = ok none
    read_secrets true none = ok none
    read_secrets true (some file) = read_json_layer file

    -- `load_layers`
    unfoldable pub load_layers : Sources → Environment → Bool → Result Value ConfigError
    unfolding read_json_layer
    load_layers sources environment user_secrets = do
      settings ← read_json_layer sources.settings
      own ← read_json_layer sources.environment_settings
      secrets ←
          read_secrets (user_secrets && exposes_operational_metadata environment)
            sources.user_secrets_path
      let files = merge_optional (merge_optional (merge_optional (object end) settings) own) secrets
      ok (merge_layer files (environment_layer sources.variables))
