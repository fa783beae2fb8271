-- ===== src/Identity/Rotation.antt =====
-- The life of a refresh token: the handlers of crates/module-identity/src/endpoints.rs over
-- `TokenService` (tokens.rs) and its store (stores.rs).
use rust_api_modular_monolit.Base.{
  ℕ, ◌+◌, ◌<◌, ◌≡◌, ◌≢◌, ◌⊎◌, refl, ◌∙◌, String, true, false, List, [], ◌∷◌, Option, none, some,
  arith, ◌==◌, eq_string, inl, inr, Bool-cases, beq_self, if_both, ltb, All,
}
use rust_api_modular_monolit.Base.Map.{get, remove, get-insert, get-remove, get-retain-none}
use rust_api_modular_monolit.Base.Result.{ok, Result-cases}
use rust_api_modular_monolit.Identity.Sessions.{
  RefreshTokens, key, is_later, purge_expired_as_of, purge_if_due, store, take_token, revoke,
  timestamp,
}
use rust_api_modular_monolit.Identity.Users.{UserRecord}
use rust_api_modular_monolit.Identity.Claims.{AuthenticatedUser}
use rust_api_modular_monolit.Identity.Service.{
  TokenService, TokenPair, Draw, days, minutes, claims_of, issue_at, reissue, refresh, Request,
  login, refreshing, logout, Response, unauthorized, forbidden, no_content, log_in, handle,
  handle_all,
}

-- The key is not among the tokens.
abbrev IsGone : String → RefreshTokens → Type 0
IsGone k s = get k s.tokens ≡ none

-- The token that a call draws is not one that is behind the key, for any user.
abbrev pub IsFresh : String → Draw → Type 0
IsFresh k draw = (user_id : String) → (key user_id draw.refresh_token == k) ≡ false

purge_if_due-IsGone :
    (now : ℕ) (k : String) (s : RefreshTokens) → IsGone k s → IsGone k (purge_if_due now s)
unfolding purge_if_due purge_expired_as_of
purge_if_due-IsGone now k s h =
    if_both (IsGone k) (ltb (timestamp now) (s.last_purge + s.purge_interval_seconds)) s _ h
      (get-retain-none (λ j expires. ltb now expires) k s.tokens h)

store-IsGone :
    (now : ℕ) (user_id token k : String) (expires : ℕ) (s : RefreshTokens)
    → (key user_id token == k) ≡ false
    → IsGone k s
    → IsGone k (store now user_id token expires s)
unfolding store
store-IsGone now user_id token k expires s other h =
    get-insert (key user_id token) k expires (purge_if_due now s).tokens
    ∙ rw other (purge_if_due-IsGone now k s h)

remove-IsGone :
    (j k : String) (s : RefreshTokens)
    → IsGone k s
    → IsGone k (record s { tokens = remove j s.tokens })
remove-IsGone j k s h = ground (arith, get-remove j k s.tokens)

module _ (service : TokenService) where
  issue_at-IsGone :
      (draw : Draw) (user : UserRecord) (k : String) (s : RefreshTokens)
      → IsFresh k draw
      → IsGone k s
      → IsGone k (issue_at service draw user s).1
  unfolding issue_at
  issue_at-IsGone draw user k s fresh h =
      elim (Result-cases (service.sign (claims_of service draw user))) [
        | inl (access, e) ↦
            rw (e, issue_at)
              (store-IsGone draw.swept user.user_id draw.refresh_token k _ s (fresh user.user_id) h)
        | inr (error, e) ↦ rw (e, issue_at) h
      ]

  reissue-IsGone :
      (draw : Draw) (user : Option UserRecord) (k : String) (s : RefreshTokens)
      → IsFresh k draw
      → IsGone k s
      → IsGone k (reissue service draw user s).1
  unfolding reissue
  reissue-IsGone draw none k s fresh h = h
  reissue-IsGone draw (some user) k s fresh h = issue_at-IsGone draw user k s fresh h

  refresh-IsGone :
      (draw : Draw) (user_id token k : String) (s : RefreshTokens)
      → IsFresh k draw
      → IsGone k (take_token draw.taken user_id token s).1
      → IsGone k (refresh service draw user_id token s).1
  unfolding refresh
  refresh-IsGone draw user_id token k s fresh h =
      if_both (λ (r : Option TokenPair × RefreshTokens). IsGone k r.1)
        (take_token draw.taken user_id token s).0 _ _
        (reissue-IsGone draw (service.users.find_by_id user_id) k _ fresh h) h

  log_in-IsGone :
      (draw : Draw) (user : Option UserRecord) (k : String) (s : RefreshTokens)
      → IsFresh k draw
      → IsGone k s
      → IsGone k (log_in service draw user s).1
  unfolding log_in
  log_in-IsGone draw none k s fresh h = h
  log_in-IsGone draw (some user) k s fresh h = issue_at-IsGone draw user k s fresh h

  handle-IsGone :
      (draw : Draw) (request : Request service) (k : String) (s : RefreshTokens)
      → IsFresh k draw
      → IsGone k s
      → IsGone k (handle service draw request s).1
  unfolding handle take_token revoke
  handle-IsGone draw (login username password) k s fresh h =
      log_in-IsGone draw (service.users.validate_credentials username password) k s fresh h
  handle-IsGone draw (refreshing user_id token) k s fresh h =
      refresh-IsGone draw user_id token k s fresh (remove-IsGone (key user_id token) k s h)
  handle-IsGone draw (logout caller user_id token) k s fresh h =
      if_both (λ (r : Response service × RefreshTokens). IsGone k r.1) (caller.subject == user_id) _
        _ (remove-IsGone (key user_id token) k s h) h

  handle_all-IsGone :
      (requests : List (Draw × Request service)) (k : String) (s : RefreshTokens)
      → All (λ (r : Draw × Request service). IsFresh k r.0) requests
      → IsGone k s
      → IsGone k (handle_all service requests s)
  unfolding handle_all
  handle_all-IsGone [] k s fresh h = h
  handle_all-IsGone ((draw, request) ∷ requests) k s fresh h =
      handle_all-IsGone requests k _ fresh.1 (handle-IsGone draw request k s fresh.0 h)

  gone_refused :
      (draw : Draw) (user_id token : String) (s : RefreshTokens)
      → IsGone (key user_id token) s
      → (handle service draw (refreshing user_id token) s).0 ≡ unauthorized
  unfolding handle refresh take_token
  gone_refused draw user_id token s h = rw (h, handle, refresh) refl

  -- A refresh token is good for one use: once it has been presented, whatever came of it, no later
  -- refresh with it succeeds, after any logins, refreshes and logouts whose new refresh tokens are
  -- other ones.
  pub refresh_once :
      (first last : Draw) (user_id token : String) (requests : List (Draw × Request service))
      (s : RefreshTokens)
      → IsFresh (key user_id token) first
      → All (λ (r : Draw × Request service). IsFresh (key user_id token) r.0) requests
      → (handle service last
          (refreshing user_id token)
          (handle_all service requests (handle service first (refreshing user_id token) s).1)).0
        ≡ unauthorized
  unfolding handle take_token
  refresh_once first last user_id token requests s fresh others =
      let k = key user_id token in
      let taken : IsGone k (record s { tokens = remove k s.tokens }) =
        ground (arith, get-remove k k s.tokens, beq_self k) in
      gone_refused last user_id token _
        (handle_all-IsGone requests k _ others (refresh-IsGone first user_id token k s fresh taken))

  -- A caller's own logout ends the session: the token is refused afterwards, under the same
  -- condition. A logout for somebody else is answered 403 and changes nothing.
  pub logout_ends :
      (first last : Draw) (caller : AuthenticatedUser) (user_id token : String)
      (requests : List (Draw × Request service)) (s : RefreshTokens)
      → All (λ (r : Draw × Request service). IsFresh (key user_id token) r.0) requests
      → ((caller.subject ≡ user_id)
          × ((handle service first (logout caller user_id token) s).0 ≡ no_content)
          × ((handle service last (refreshing user_id token) (
                handle_all service requests
                  (handle service first (logout caller user_id token) s).1)).0
              ≡ unauthorized))
        ⊎ ((caller.subject ≢ user_id)
            × (handle service first (logout caller user_id token) s ≡ (forbidden, s)))
  unfolding handle revoke
  logout_ends first last caller user_id token requests s others =
      let k = key user_id token in
      let taken : IsGone k (record s { tokens = remove k s.tokens }) =
        ground (arith, get-remove k k s.tokens, beq_self k) in
      elim (Bool-cases (caller.subject == user_id)) [
        | inl own ↦ inl (
          (eq_string.equals_iff _ _).0 own,
          rw own refl,
          gone_refused last user_id token _ (handle_all-IsGone requests k _ others (rw own taken)),
        )
        | inr other ↦
            inr (ground (arith, eq_string.equals_iff caller.subject user_id), rw other refl)
      ]

  is_later-some : (now expires : ℕ) → now < expires → is_later now (some expires) ≡ true
  is_later-some now expires h = ground arith

  issue_at-ok :
      (draw : Draw) (user : UserRecord) (p : TokenPair) (s : RefreshTokens)
      → (issue_at service draw user s).0 ≡ ok p
      → (p.refresh_token ≡ draw.refresh_token)
        × ((issue_at service draw user s).1
            ≡ store draw.swept user.user_id draw.refresh_token
                (draw.now + days service.options.refresh_token_days)
                s)
  unfolding issue_at
  issue_at-ok draw user p s first =
      elim (Result-cases (service.sign (claims_of service draw user))) [
        | inl (a, e) ↦
            let same : ok (record {
              access_token = a;
              refresh_token = draw.refresh_token;
              expires_at_utc = draw.now + minutes service.options.access_token_minutes;
            })
                ≡ ok p =
              rw (e, issue_at) at first in
            (cc, rw (e, issue_at) refl)
        | inr (error, e) ↦ absurd (ground (arith, rw (e, issue_at) at first))
      ]

  reissue-ok :
      (draw : Draw) (user : UserRecord) (access : String) (s : RefreshTokens)
      → service.sign (claims_of service draw user) ≡ ok access
      → (reissue service draw (some user) s).0
        ≡ some (record {
          access_token = access;
          refresh_token = draw.refresh_token;
          expires_at_utc = draw.now + minutes service.options.access_token_minutes;
        })
  unfolding reissue issue_at
  reissue-ok draw user access s signed = rw (signed, issue_at) refl

  get-store :
      (now expires : ℕ) (user_id token : String) (s : RefreshTokens)
      → get (key user_id token) (store now user_id token expires s).tokens ≡ some expires
  unfolding store
  get-store now expires user_id token s =
      get-insert (key user_id token) (key user_id token) expires (purge_if_due now s).tokens
      ∙ rw (beq_self (key user_id token)) refl

  refresh_held :
      (later : Draw) (user_id token access : String) (expires : ℕ) (found : UserRecord)
      (s : RefreshTokens)
      → get (key user_id token) s.tokens ≡ some expires
      → later.taken < expires
      → service.users.find_by_id user_id ≡ some found
      → service.sign (claims_of service later found) ≡ ok access
      → (refresh service later user_id token s).0
        ≡ some (record {
          access_token = access;
          refresh_token = later.refresh_token;
          expires_at_utc = later.now + minutes service.options.access_token_minutes;
        })
  unfolding refresh take_token
  refresh_held later user_id token access expires found s held early there signed =
      let open_yet = is_later-some later.taken expires early in
      rw (held, refresh, open_yet, there) (reissue-ok later found access _ signed)

  -- A session is kept alive by its own refresh token: what a login or a refresh hands out is
  -- accepted until it expires, and answered with a new pair, when the user is still there and the
  -- signing succeeds.
  pub issue_at-refresh :
      (draw later : Draw) (user found : UserRecord) (p : TokenPair) (access : String)
      (s : RefreshTokens)
      → (issue_at service draw user s).0 ≡ ok p
      → later.taken < draw.now + days service.options.refresh_token_days
      → service.users.find_by_id user.user_id ≡ some found
      → service.sign (claims_of service later found) ≡ ok access
      → (refresh service later user.user_id p.refresh_token (issue_at service draw user s).1).0
        ≡ some (record {
          access_token = access;
          refresh_token = later.refresh_token;
          expires_at_utc = later.now + minutes service.options.access_token_minutes;
        })
  issue_at-refresh draw later user found p access s first early there signed =
      let (its_token, stored) = issue_at-ok draw user p s first in
      rw (stored, its_token)
        (refresh_held later user.user_id draw.refresh_token access
          (draw.now + days service.options.refresh_token_days) found
          (store draw.swept user.user_id draw.refresh_token
            (draw.now + days service.options.refresh_token_days) s)
          (get-store draw.swept _ user.user_id draw.refresh_token s) early there signed)
