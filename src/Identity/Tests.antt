-- ===== src/Identity/Tests.antt =====
-- Runs of the identity module: one user, her sessions and her requests.
use rust_api_modular_monolit.Base.{
  ℕ, ◌+◌, ◌*◌, ◌≡◌, ◌≢◌, ◌↔◌, ◌⊎◌, refl, String, List, [], ◌∷◌, none, some, arith, eq_string, All,
  beq_ne, ap,
}
use Prim.Native.String.{len}
use text.Mathlib.TextPositions.{len-append}
use rust_api_modular_monolit.Base.Map.{get}
use rust_api_modular_monolit.Base.Text.{format, trim, is_whitespace, trim_start, trim_end}
use rust_api_modular_monolit.Base.Result.{ok}
use rust_api_modular_monolit.Identity.Sessions.{
  RefreshTokens, with_purge_interval, purge_interval, key, Operation, stores, takes, validates,
  perform_all,
}
use rust_api_modular_monolit.Identity.Purging.{specified_all, perform_all-specified, Agree}
use rust_api_modular_monolit.Identity.Users.{UserRecord, UserStore}
use rust_api_modular_monolit.Identity.Claims.{AuthenticatedUser, into_user}
use rust_api_modular_monolit.Identity.Service.{
  TokenService, Draw, claims_of, issue_at, refresh, login, refreshing, logout, handle, handle_all,
  unauthorized, no_content, forbidden, minutes,
}
use rust_api_modular_monolit.Identity.Rotation.{
  IsFresh, refresh_once, logout_ends, issue_at-refresh,
}
use rust_api_modular_monolit.Identity.Caller.{into_user-claims_of}
use rust_api_modular_monolit.Identity.Policies.{Principal, authorize, next, Holds}
use rust_api_modular_monolit.Identity.Policies.Authorize.{authorize-next}

abbrev no_tokens : RefreshTokens
no_tokens = with_purge_interval purge_interval

abbrev second : ℕ → ℕ
second n = n * 1_000_000_000

abbrev series : List (ℕ × Operation)
series =
    (second 100, stores "u" "t" (second 120))
    ∷ (second 110, validates "u" "t")
    ∷ (second 170, stores "v" "x" (second 300))
    ∷ (second 171, takes "u" "t")
    ∷ (second 172, takes "v" "x")
    ∷ []

perform_all-specified_example : (perform_all series no_tokens).0 ≡ specified_all series (λ k. none)
unfolding Agree get
perform_all-specified_example =
    perform_all-specified 0 series no_tokens (λ k. none) tt (omega arith) (λ k. refl)

abbrev alice : UserRecord
alice = record {
  username = "alice";
  password = "pw";
  user_id = "u";
  display_name = "Alice";
  roles = "Admin" ∷ [];
  permissions = "orders.read" ∷ "orders.write" ∷ [];
  email = none;
  tenant = some "acme";
}

abbrev only_alice : UserStore
only_alice = record {
  validate_credentials = λ username password. some alice;
  find_by_id = λ user_id. some alice;
}

abbrev service : TokenService
service = record {
  options = record {
    issuer = "issuer";
    audience = "audience";
    access_token_minutes = 15;
    refresh_token_days = 7;
  };
  users = only_alice;
  sign = λ claims. ok "signed";
}

abbrev draw : String → Draw
draw token = record {
  taken = second 100;
  now = second 100;
  swept = second 100;
  jti = "id";
  refresh_token = token;
}

abbrev logged_in : RefreshTokens
logged_in = (handle service (draw "t1") (login "alice" "pw") no_tokens).1

abbrev long_token : String
long_token = "another-token"

-- The new token's key is longer than the old one.
IsFresh-long : IsFresh "u:t1" (draw long_token)
unfolding key format
IsFresh-long user_id =
    beq_ne (key user_id long_token) "u:t1"
      (λ h. omega (arith, ap len h, len-append user_id ":another-token"))

refresh_once_example :
    (handle service (draw long_token) (refreshing "u" "t1") (
      handle_all service
        ((draw long_token, login "alice" "pw") ∷ [])
        (handle service (draw long_token) (refreshing "u" "t1") logged_in).1)).0
    ≡ unauthorized
unfolding key format
refresh_once_example =
    refresh_once service (draw long_token) (draw long_token) "u" "t1"
      ((draw long_token, login "alice" "pw") ∷ []) logged_in IsFresh-long (IsFresh-long, tt)

abbrev caller : AuthenticatedUser
caller = record {
  subject = "u";
  name = some "Alice";
  email = none;
  tenant = some "acme";
  roles = "Admin" ∷ [];
  permissions = "orders.read" ∷ "orders.write" ∷ [];
}

logout_ends_example :
    ((caller.subject ≡ "u")
      × ((handle service (draw long_token) (logout caller "u" "t1") logged_in).0 ≡ no_content)
      × ((handle service (draw long_token) (refreshing "u" "t1") (
            handle_all service []
              (handle service (draw long_token) (logout caller "u" "t1") logged_in).1)).0
          ≡ unauthorized))
    ⊎ ((caller.subject ≢ "u")
        × (handle service (draw long_token) (logout caller "u" "t1") logged_in
            ≡ (forbidden, logged_in)))
logout_ends_example =
    logout_ends service (draw long_token) (draw long_token) caller "u" "t1" [] logged_in tt

issue_at-refresh_example :
    (refresh service (draw long_token) "u" "t1" (issue_at service (draw "t1") alice no_tokens).1).0
    ≡ some (record {
      access_token = "signed";
      refresh_token = long_token;
      expires_at_utc = second 100 + minutes 15;
    })
unfolding issue_at
issue_at-refresh_example =
    issue_at-refresh service (draw "t1") (draw long_token) alice alice
      (record {
        access_token = "signed";
        refresh_token = "t1";
        expires_at_utc = second 100 + minutes 15;
      })
      "signed" no_tokens refl (omega arith) refl refl

into_user-claims_of_example : into_user (claims_of service (draw "t1") alice) ≡ caller
unfolding trim is_whitespace trim_start trim_end
into_user-claims_of_example = into_user-claims_of service (draw "t1") alice

abbrev principal : Principal
principal = record { user = some caller; request_tenant = some "acme" }

authorize-next_example : (authorize ("orders.read" ∷ "tenant.scoped" ∷ []) principal ≡ next) ↔ (
    (user : AuthenticatedUser) × (principal.user ≡ some user)
    × All (λ policy. Holds policy user principal) ("orders.read" ∷ "tenant.scoped" ∷ []))
authorize-next_example = authorize-next ("orders.read" ∷ "tenant.scoped" ∷ []) principal
