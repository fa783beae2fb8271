-- ===== src/Identity/Sessions.antt =====
-- crates/module-identity/src/stores.rs: `InMemoryRefreshTokenStore`. Times are numbers of
-- nanoseconds; each operation is given the clock's reading. The race of two sweeps for `last_purge`
-- is not there, since operations follow one another.
use rust_api_modular_monolit.Base.{
  ℕ, ◌+◌, ◌/◌, String, Bool, true, false, List, [], ◌∷◌, Option, none, some, ltb, eq_string,
  if◌then◌else◌, length, ◌-◌,
}
use rust_api_modular_monolit.Base.Map.{get, insert, remove, retain}
use rust_api_modular_monolit.Base.Text.{format}

-- `InMemoryRefreshTokenStore`
pub record RefreshTokens : Type 0 where
  pub tokens : List (String × ℕ)
  pub last_purge : ℕ
  pub purge_interval_seconds : ℕ

-- `PURGE_INTERVAL_SECONDS`
abbrev pub purge_interval : ℕ
purge_interval = 60

-- `with_purge_interval`
abbrev pub with_purge_interval : ℕ → RefreshTokens
with_purge_interval interval = record {
  tokens = [];
  last_purge = 0;
  purge_interval_seconds = interval;
}

-- `key`
unfoldable pub key : String → String → String
key user_id token = format (user_id ∷ ":" ∷ token ∷ [])

abbrev pub is_later : ℕ → Option ℕ → Bool
is_later now none = false
is_later now (some expires) = ltb now expires

-- `purge_expired_as_of`: how many it removes, and the store after it.
unfoldable pub purge_expired_as_of : ℕ → RefreshTokens → ℕ × RefreshTokens
purge_expired_as_of now s =
    let kept = retain (λ k expires. ltb now expires) s.tokens in
    (length s.tokens - length kept, record s { tokens = kept })

abbrev pub timestamp : ℕ → ℕ
timestamp now = now / 1_000_000_000

-- `purge_if_due`
unfoldable pub purge_if_due : ℕ → RefreshTokens → RefreshTokens
unfolding purge_expired_as_of
purge_if_due now s =
    if ltb (timestamp now) (s.last_purge + s.purge_interval_seconds)
    then s
    else (purge_expired_as_of now (record s { last_purge = timestamp now })).1

-- `store`
unfoldable pub store : ℕ → String → String → ℕ → RefreshTokens → RefreshTokens
unfolding purge_if_due
store now user_id token expires s =
    let s' = purge_if_due now s in
    record s' { tokens = insert (key user_id token) expires s'.tokens }

-- `validate`
unfoldable pub validate : ℕ → String → String → RefreshTokens → Bool
validate now user_id token s = is_later now (get (key user_id token) s.tokens)

-- `take`
unfoldable pub take_token : ℕ → String → String → RefreshTokens → Bool × RefreshTokens
take_token now user_id token s = (
  is_later now (get (key user_id token) s.tokens),
  record s { tokens = remove (key user_id token) s.tokens },
)

-- `revoke`
unfoldable pub revoke : String → String → RefreshTokens → RefreshTokens
revoke user_id token s = record s { tokens = remove (key user_id token) s.tokens }

-- The operations of the store, as a client asks for them.
pub data Operation : Type 0 where
  stores : (user_id token : String) (expires : ℕ) → Operation
  validates : (user_id token : String) → Operation
  takes : (user_id token : String) → Operation
  revokes : (user_id token : String) → Operation
  purges : Operation

-- One operation at a time: its answer, and the store after it.
unfoldable pub perform : ℕ → Operation → RefreshTokens → Bool × RefreshTokens
unfolding store validate take_token revoke purge_expired_as_of
perform now (stores user_id token expires) s = (true, store now user_id token expires s)
perform now (validates user_id token) s = (validate now user_id token s, s)
perform now (takes user_id token) s = take_token now user_id token s
perform now (revokes user_id token) s = (true, revoke user_id token s)
perform now purges s = (true, (purge_expired_as_of now s).1)

unfoldable pub perform_all : List (ℕ × Operation) → RefreshTokens → List Bool × RefreshTokens
perform_all [] s = ([], s)
perform_all ((now, operation) ∷ operations) s =
    let (answer, s') = perform now operation s in
    let (answers, s'') = perform_all operations s' in (answer ∷ answers, s'')
