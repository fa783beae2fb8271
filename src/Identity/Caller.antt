-- ===== src/Identity/Caller.antt =====
-- That the caller whom an access token makes is the user it was issued to: `issue_at` of
-- crates/module-identity/src/tokens.rs and `into_user` of claims.rs.
use rust_api_modular_monolit.Base.{◌≡◌, refl, not, some, filter_some}
use rust_api_modular_monolit.Base.Text.{trim, is_empty}
use rust_api_modular_monolit.Identity.Users.{UserRecord}
use rust_api_modular_monolit.Identity.Claims.{into_user, values_of-from_values}
use rust_api_modular_monolit.Identity.Service.{TokenService, Draw, claims_of}

-- A token's claims, read back, are the user's: the subject, the e-mail, the tenant, every role and
-- every permission in order, though a single value travels as a text and none not at all; and the
-- display name, unless it is blank.
pub into_user-claims_of :
    (service : TokenService) (draw : Draw) (user : UserRecord)
    → into_user (claims_of service draw user) ≡ record {
      subject = user.user_id;
      name = filter_some (λ name. not (is_empty (trim name))) (some user.display_name);
      email = user.email;
      tenant = user.tenant;
      roles = user.roles;
      permissions = user.permissions;
    }
unfolding into_user claims_of
into_user-claims_of service draw user =
    rw (values_of-from_values user.roles, values_of-from_values user.permissions) refl
