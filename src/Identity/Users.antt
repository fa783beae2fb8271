-- ===== src/Identity/Users.antt =====
-- crates/module-identity/src/stores.rs: `UserRecord`, `InMemoryUserStore`, `DisabledUserStore`; and
-- `InMemoryUserRecord::is_usable` of options.rs. `to_lowercase`, which is Unicode's, is a parameter.
use rust_api_modular_monolit.Base.{
  String, Bool, not, ◌&&◌, List, [], ◌∷◌, Option, none, ◌==◌, eq_string, if◌then◌else◌, get_or,
  map_option, filter_some, keep, map, find_first,
}
use rust_api_modular_monolit.Base.Map.{get, insert}
use rust_api_modular_monolit.Base.Text.{trim, is_empty}

-- `UserRecord`
pub record UserRecord : Type 0 where
  pub username : String
  pub password : String
  pub user_id : String
  pub display_name : String
  pub roles : List String
  pub permissions : List String
  pub email : Option String
  pub tenant : Option String

-- `InMemoryUserRecord`
pub record InMemoryUserRecord : Type 0 where
  pub username : String
  pub password : String
  pub user_id : String
  pub display_name : Option String
  pub roles : List String
  pub permissions : List String
  pub email : Option String
  pub tenant : Option String

-- `is_usable`
abbrev pub is_usable : InMemoryUserRecord → Bool
is_usable r =
    not (is_empty (trim r.username))
    && not (is_empty (trim r.password))
    && not (is_empty (trim r.user_id))

-- `non_blank`
abbrev pub non_blank : List String → List String
non_blank values = keep (λ value. not (is_empty value)) (map trim values)

-- `trimmed`
abbrev pub trimmed : Option String → Option String
trimmed value = filter_some (λ v. not (is_empty v)) (map_option trim value)

-- `UserStore`
pub record UserStore : Type 0 where
  pub validate_credentials : String → String → Option UserRecord
  pub find_by_id : String → Option UserRecord

module _ (to_lowercase : String → String) where
  pub user_of : InMemoryUserRecord → UserRecord
  user_of r =
      let username = trim r.username in
      record {
        username = username;
        password = r.password;
        user_id = trim r.user_id;
        display_name = get_or username (trimmed r.display_name);
        roles = non_blank r.roles;
        permissions = non_blank r.permissions;
        email = trimmed r.email;
        tenant = trimmed r.tenant;
      }

  -- The loop of `from_records`.
  pub load : List InMemoryUserRecord → List (String × UserRecord) → List (String × UserRecord)
  unfolding user_of
  load [] users = users
  load (r ∷ records) users =
      if is_usable r
      then load records (insert (to_lowercase (trim r.username)) (user_of r) users)
      else load records users

  -- `InMemoryUserStore::from_records`
  pub from_records : List InMemoryUserRecord → List (String × UserRecord)
  unfolding load
  from_records records = load records []

  abbrev pub check_password : String → Option UserRecord → Option UserRecord
  check_password password = filter_some (λ user. user.password == password)

  pub values : List (String × UserRecord) → List UserRecord
  values [] = []
  values ((username, user) ∷ users) = user ∷ values users

  -- `InMemoryUserStore`, whose values are in the order of the list.
  unfoldable pub in_memory : List (String × UserRecord) → UserStore
  unfolding values
  in_memory users = record {
    validate_credentials =
        λ username password. check_password password (get (to_lowercase username) users);
    find_by_id = λ user_id. find_first (λ user. user.user_id == user_id) (values users);
  }

-- `DisabledUserStore`
abbrev pub disabled : UserStore
disabled = record { validate_credentials = λ username password. none; find_by_id = λ user_id. none }
