-- ===== src/Identity/Service.antt =====
-- crates/module-identity/src/tokens.rs: `TokenService`, and the handlers of endpoints.rs that use
-- it. Signing, which jsonwebtoken does, is a parameter; the random tokens, the ids and the readings
-- of the clock are arguments.
use rust_api_modular_monolit.Base.{
  ℕ, ◌+◌, ◌*◌, String, not, List, [], ◌∷◌, Option, none, some, ◌==◌, eq_string, if◌then◌else◌,
  filter_some,
}
use rust_api_modular_monolit.Base.Text.{trim, is_empty}
use rust_api_modular_monolit.Base.Result.{Result, ok, err}
use rust_api_modular_monolit.Identity.Sessions.{RefreshTokens, store, take_token, revoke, timestamp}
use rust_api_modular_monolit.Identity.Users.{UserRecord, UserStore}
use rust_api_modular_monolit.Identity.Claims.{AccessTokenClaims, AuthenticatedUser, from_values}

-- `JwtAuthOptions`, as far as the service reads it.
pub record JwtAuthOptions : Type 0 where
  pub issuer : String
  pub audience : String
  pub access_token_minutes : ℕ
  pub refresh_token_days : ℕ

-- `TokenPair`
pub record TokenPair : Type 0 where
  pub access_token : String
  pub refresh_token : String
  pub expires_at_utc : ℕ

-- What one call draws: the clock as `take`, as `issue` and as `store` read it, the id of the token
-- and the new refresh token.
pub record Draw : Type 0 where
  pub taken : ℕ
  pub now : ℕ
  pub swept : ℕ
  pub jti : String
  pub refresh_token : String

-- `TokenService` without its refresh tokens, which are the state.
pub record TokenService : Type 0 where
  pub options : JwtAuthOptions
  pub users : UserStore
  pub sign : AccessTokenClaims → Result String String

abbrev pub minutes : ℕ → ℕ
minutes n = n * 60_000_000_000

abbrev pub days : ℕ → ℕ
days n = n * 86_400_000_000_000

module _ (service : TokenService) where
  -- The claims of `issue_at`.
  unfoldable pub claims_of : Draw → UserRecord → AccessTokenClaims
  claims_of draw user = record {
    sub = user.user_id;
    jti = draw.jti;
    iat = timestamp draw.now;
    nbf = timestamp draw.now;
    exp = timestamp (draw.now + minutes service.options.access_token_minutes);
    iss = service.options.issuer;
    aud = service.options.audience ∷ service.options.audience ∷ [];
    name = filter_some (λ name. not (is_empty (trim name))) (some user.display_name);
    email = user.email;
    tenant = user.tenant;
    roles = from_values user.roles;
    permissions = from_values user.permissions;
  }

  -- `issue_at`
  unfoldable pub issue_at :
      Draw → UserRecord → RefreshTokens → Result TokenPair String × RefreshTokens
  unfolding claims_of
  issue_at draw user s = elim (service.sign (claims_of draw user)) [
    | err error ↦ (err error, s)
    | ok access_token ↦ (
      ok (record {
        access_token = access_token;
        refresh_token = draw.refresh_token;
        expires_at_utc = draw.now + minutes service.options.access_token_minutes;
      }),
      store draw.swept user.user_id draw.refresh_token
          (draw.now + days service.options.refresh_token_days) s,
    )
  ]

  abbrev pub pair_of : Result TokenPair String → Option TokenPair
  pair_of (ok pair) = some pair
  pair_of (err error) = none

  -- `refresh` once the token has been taken.
  unfoldable pub reissue :
      Draw → Option UserRecord → RefreshTokens → Option TokenPair × RefreshTokens
  unfolding issue_at
  reissue draw none s = (none, s)
  reissue draw (some user) s = let (issued, s') = issue_at draw user s in (pair_of issued, s')

  -- `refresh`
  unfoldable pub refresh : Draw → String → String → RefreshTokens → Option TokenPair × RefreshTokens
  unfolding reissue
  refresh draw user_id token s =
      let (held, s') = take_token draw.taken user_id token s in
      if held then reissue draw (service.users.find_by_id user_id) s' else (none, s')

  -- `LoginRequest`, `RefreshRequest` and `LogoutRequest`, each past its validation, with the
  -- caller of a logout.
  pub data Request : Type 0 where
    login : (username password : String) → Request
    refreshing : (user_id token : String) → Request
    logout : (caller : AuthenticatedUser) (user_id token : String) → Request

  pub data Response : Type 0 where
    pair : TokenPair → Response
    unauthorized : Response
    internal_server_error : Response
    forbidden : Response
    no_content : Response

  abbrev pub issued : Result TokenPair String → Response
  issued (ok p) = pair p
  issued (err error) = internal_server_error

  abbrev pub refreshed : Option TokenPair → Response
  refreshed (some p) = pair p
  refreshed none = unauthorized

  -- `login` past the check of the credentials.
  unfoldable pub log_in : Draw → Option UserRecord → RefreshTokens → Response × RefreshTokens
  unfolding issue_at
  log_in draw none s = (unauthorized, s)
  log_in draw (some user) s = let (result, s') = issue_at draw user s in (issued result, s')

  -- The handlers `login`, `refresh` and `logout`.
  unfoldable pub handle : Draw → Request → RefreshTokens → Response × RefreshTokens
  unfolding log_in refresh
  handle draw (login username password) s =
      log_in draw (service.users.validate_credentials username password) s
  handle draw (refreshing user_id token) s =
      let (result, s') = refresh draw user_id token s in (refreshed result, s')
  handle draw (logout caller user_id token) s =
      if caller.subject == user_id then (no_content, revoke user_id token s) else (forbidden, s)

  unfoldable pub handle_all : List (Draw × Request) → RefreshTokens → RefreshTokens
  handle_all [] s = s
  handle_all ((draw, request) ∷ requests) s = handle_all requests (handle draw request s).1
