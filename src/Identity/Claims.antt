-- ===== src/Identity/Claims.antt =====
-- crates/module-identity/src/claims.rs, with `AuthenticatedUser` of
-- crates/shared-kernel/src/auth.rs: the claims of an access token and the caller they make.
use rust_api_modular_monolit.Base.{
  ℕ, ◌≡◌, refl, String, Bool, List, [], ◌∷◌, Option, none, some, ◌==◌, eq_string, any, get_or,
  map_option,
}

-- `ClaimValues`
pub data ClaimValues : Type 0 where
  one : String → ClaimValues
  many : List String → ClaimValues

-- `from_values`
abbrev pub from_values : List String → Option ClaimValues
from_values [] = none
from_values (value ∷ []) = some (one value)
from_values (value ∷ second ∷ values) = some (many (value ∷ second ∷ values))

-- `into_values`
abbrev pub into_values : ClaimValues → List String
into_values (one value) = value ∷ []
into_values (many values) = values

-- `values_of`
abbrev pub values_of : Option ClaimValues → List String
values_of claim = get_or [] (map_option into_values claim)

-- `AccessTokenClaims`
pub record AccessTokenClaims : Type 0 where
  pub sub : String
  pub jti : String
  pub iat : ℕ
  pub nbf : ℕ
  pub exp : ℕ
  pub iss : String
  pub aud : List String
  pub name : Option String
  pub email : Option String
  pub tenant : Option String
  pub roles : Option ClaimValues
  pub permissions : Option ClaimValues

-- `AuthenticatedUser`
pub record AuthenticatedUser : Type 0 where
  pub subject : String
  pub name : Option String
  pub email : Option String
  pub tenant : Option String
  pub roles : List String
  pub permissions : List String

-- `into_user`
unfoldable pub into_user : AccessTokenClaims → AuthenticatedUser
into_user c = record {
  subject = c.sub;
  name = c.name;
  email = c.email;
  tenant = c.tenant;
  roles = values_of c.roles;
  permissions = values_of c.permissions;
}

-- `has_permission`
abbrev pub has_permission : AuthenticatedUser → String → Bool
has_permission user permission = any (λ held. held == permission) user.permissions

-- `has_role`
abbrev pub has_role : AuthenticatedUser → String → Bool
has_role user role = any (λ held. held == role) user.roles

pub values_of-from_values : (values : List String) → values_of (from_values values) ≡ values
values_of-from_values [] = refl
values_of-from_values (value ∷ []) = refl
values_of-from_values (value ∷ second ∷ values) = refl
