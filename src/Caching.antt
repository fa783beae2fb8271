-- ===== src/Caching.antt =====
-- crates/shared-kernel/src/caching/facade.rs: the cache and its tag index. moka, which holds the
-- entries, is a map together with the removals that its listener has not been told of yet; it may
-- drop any entry at any time (`evict`) and tell of the removals in any order (`notify`). The jitter
-- on an entry's lifetime, which is random, is an argument; so is what a factory answers.
pub mod Key
pub mod Index
pub mod Tracking
pub mod Freshness
pub mod Reading
pub mod Overlap
pub mod Entries
mod Tests
use rust_api_modular_monolit.Base.{
  ℕ, suc, ◌≡◌, refl, String, Bool, true, false, List, [], ◌∷◌, ◌++◌, Option, none, some, ◌==◌,
  eq_nat, eq_string, if◌then◌else◌, nat_eq, get_or, ◌*◌, is_some,
}
use rust_api_modular_monolit.Base.Map.{get, insert, remove}
use rust_api_modular_monolit.Base.Result.{Result, ok, err}

-- `CacheEntryOptions`, as far as the facade reads it; times are in seconds.
pub record CacheEntryOptions : Type 0 where
  pub absolute_expiration_relative_to_now : Option ℕ
  pub sliding_expiration : Option ℕ
  pub tags : List String

-- `SERVICE_TTL`
abbrev pub service_ttl : ℕ
service_ttl = 20 * 60

-- `CacheEntryOptions::default`
abbrev pub default_entry_options : CacheEntryOptions
default_entry_options = record {
  absolute_expiration_relative_to_now = none;
  sliding_expiration = none;
  tags = [];
}

-- `CacheEntryOptions::for_service`
abbrev pub for_service : List String → CacheEntryOptions
for_service tags = record default_entry_options {
  absolute_expiration_relative_to_now = some service_ttl;
  tags = tags;
}

-- `CachedEntry`
pub record CachedEntry (V : Type 0) : Type 0 where
  pub value : V
  pub absolute : ℕ
  pub sliding : Option ℕ
  pub tags : List String
  pub generation : ℕ

-- `EntryExpiry::expire_after_read`
pub expire_after_read : {V : Type 0} → CachedEntry V → Option ℕ → Option ℕ
expire_after_read entry until = elim entry.sliding [ some sliding ↦ some sliding | none ↦ until ]

-- `TagIndex`
abbrev pub TagIndex : Type 0
TagIndex = List (String × List (String × ℕ))

-- `CacheFacade`, with the counter `GENERATIONS` and the removals not yet told of.
pub record CacheFacade (V : Type 0) : Type 0 where
  pub enabled : Bool
  pub default_ttl_seconds : ℕ
  pub entries : List (String × CachedEntry V)
  pub tags : TagIndex
  pub next_generation : ℕ
  pub removed : List (String × CachedEntry V)

-- `register_tags`
unfoldable pub register_tags : TagIndex → String → List String → ℕ → TagIndex
register_tags index key [] generation = index
register_tags index key (tag ∷ tags) generation =
    register_tags (insert tag (insert key generation (get_or [] (get tag index))) index) key tags
      generation

abbrev pub no_keys : List (String × ℕ) → Bool
no_keys [] = true
no_keys (k ∷ keys) = false

abbrev pub is_generation : ℕ → Option ℕ → Bool
is_generation generation none = false
is_generation generation (some g) = nat_eq g generation

-- One round of the loop of `forget_tags`.
unfoldable pub forget_tag : TagIndex → String → String → ℕ → TagIndex
forget_tag index key tag generation = elim (get tag index) [
  | none ↦ index
  | some keys ↦
      let kept = if is_generation generation (get key keys) then remove key keys else keys in
      if no_keys kept then remove tag index else insert tag kept index
]

-- `forget_tags`
unfoldable pub forget_tags : TagIndex → String → List String → ℕ → TagIndex
forget_tags index key [] generation = index
forget_tags index key (tag ∷ tags) generation =
    forget_tags (forget_tag index key tag generation) key tags generation

module _ {V : Type 0} where
  abbrev pub replaced : String → Option (CachedEntry V) → List (String × CachedEntry V)
  replaced key none = []
  replaced key (some entry) = (key, entry) ∷ []

  -- moka's `insert`
  unfoldable pub store : String → CachedEntry V → CacheFacade V → CacheFacade V
  store key entry s = record s {
    entries = insert key entry s.entries;
    removed = replaced key (get key s.entries) ++ s.removed;
  }

  -- moka's `invalidate`
  unfoldable pub invalidate : String → CacheFacade V → CacheFacade V
  invalidate key s = record s {
    entries = remove key s.entries;
    removed = replaced key (get key s.entries) ++ s.removed;
  }

  -- The entry that `effective` and the next generation make of a value; `jitter` is
  -- `apply_jitter` with its roll.
  unfoldable pub new_entry : (ℕ → ℕ) → CacheFacade V → V → CacheEntryOptions → CachedEntry V
  new_entry jitter s value options = record {
    value = value;
    absolute = jitter (get_or s.default_ttl_seconds options.absolute_expiration_relative_to_now);
    sliding = options.sliding_expiration;
    tags = options.tags;
    generation = s.next_generation;
  }

  -- The first half of a write: a generation, and the tags registered.
  unfoldable pub register : String → CachedEntry V → CacheFacade V → CacheFacade V
  register key entry s = record s {
    tags = register_tags s.tags key entry.tags entry.generation;
    next_generation = suc s.next_generation;
  }

  -- What a write does to a cache, in turn; each is one atomic step.
  unfoldable pub write_steps :
      (ℕ → ℕ)
      → String
      → V
      → CacheEntryOptions
      → CacheFacade V
      → List (CacheFacade V → CacheFacade V)
  unfolding store new_entry register
  write_steps jitter key value options s =
      let entry = new_entry jitter s value options in register key entry ∷ store key entry ∷ []

  abbrev pub in_turn : List (CacheFacade V → CacheFacade V) → CacheFacade V → CacheFacade V
  in_turn [] s = s
  in_turn (step ∷ steps) s = in_turn steps (step s)

  unfoldable pub write : (ℕ → ℕ) → String → V → CacheEntryOptions → CacheFacade V → CacheFacade V
  unfolding write_steps
  write jitter key value options s = in_turn (write_steps jitter key value options s) s

  -- `set`
  unfoldable pub set : (ℕ → ℕ) → String → V → CacheEntryOptions → CacheFacade V → CacheFacade V
  set jitter key value options s = if s.enabled then write jitter key value options s else s

  -- `contains`
  unfoldable pub has_entry : String → CacheFacade V → Bool
  has_entry key s = is_some (get key s.entries)

  -- `try_get_or_add` where the entry is not there: what the closure given to moka's
  -- `try_get_with` does, and what the callers are answered.
  unfoldable pub add_missing :
      {F : Type 0}
      → (ℕ → ℕ)
      → String
      → Result (Option V) F
      → CacheEntryOptions
      → CacheFacade V
      → Result (Option V) F × CacheFacade V
  add_missing jitter key (ok (some value)) options s =
      (ok (some value), write jitter key value options s)
  add_missing jitter key (ok none) options s = (ok none, s)
  add_missing jitter key (err failure) options s = (err failure, s)

  -- `try_get_or_add`: the answer, and the cache after it. `answer` is what the factory comes to if
  -- it is run; `none` is a value that is not there.
  unfoldable pub try_get_or_add :
      {F : Type 0}
      → (ℕ → ℕ)
      → String
      → Result (Option V) F
      → CacheEntryOptions
      → CacheFacade V
      → Result (Option V) F × CacheFacade V
  try_get_or_add jitter key answer options s =
      if s.enabled
      then elim (get key s.entries) [
        | some entry ↦ (ok (some entry.value), s)
        | none ↦ add_missing jitter key answer options s
      ]
      else (answer, s)

  -- `remove`
  unfoldable pub remove_entry : String → CacheFacade V → CacheFacade V
  unfolding invalidate
  remove_entry key s = invalidate key s

  unfoldable pub invalidate_all : List (String × ℕ) → CacheFacade V → CacheFacade V
  invalidate_all [] s = s
  invalidate_all ((key, generation) ∷ keys) s = invalidate_all keys (invalidate key s)

  -- `remove_by_tag`
  unfoldable pub remove_by_tag : String → CacheFacade V → CacheFacade V
  remove_by_tag tag s = elim (get tag s.tags) [
    | none ↦ s
    | some keys ↦ invalidate_all keys (record s { tags = remove tag s.tags })
  ]

  -- The eviction listener of `build`, told of one removal.
  unfoldable pub notify :
      List (String × CachedEntry V)
      → String
      → CachedEntry V
      → List (String × CachedEntry V)
      → CacheFacade V
      → CacheFacade V
  notify before key entry rest s = record s {
    tags = forget_tags s.tags key entry.tags entry.generation;
    removed = before ++ rest;
  }

-- `F` is the type of the factories' errors.
-- What stands between two states of a cache whose writes do not overlap.
pub data Step {V : Type 0} (F : Type 0) : CacheFacade V → CacheFacade V → Type 0 where
  was_set :
      (s : CacheFacade V) (jitter : ℕ → ℕ) (key : String) (value : V) (options : CacheEntryOptions)
      → Step F s (set jitter key value options s)
  was_read :
      (s : CacheFacade V) (jitter : ℕ → ℕ) (key : String) (answer : Result (Option V) F)
      (options : CacheEntryOptions)
      → Step F s (try_get_or_add jitter key answer options s).1
  was_removed : (s : CacheFacade V) (key : String) → Step F s (remove_entry key s)
  was_removed_by_tag : (s : CacheFacade V) (tag : String) → Step F s (remove_by_tag tag s)
  was_evicted : (s : CacheFacade V) (key : String) → Step F s (invalidate key s)
  -- Another cache of the process has drawn a generation.
  was_drawn : (s : CacheFacade V) → Step F s (record s { next_generation = suc s.next_generation })
  was_notified :
      (s : CacheFacade V) (before : List (String × CachedEntry V)) (key : String)
      (entry : CachedEntry V) (rest : List (String × CachedEntry V))
      → s.removed ≡ before ++ (key, entry) ∷ rest
      → Step F s (notify before key entry rest s)

-- `CacheFacade::new`; other caches of the process may have drawn generations before.
abbrev pub new_facade : {V : Type 0} → Bool → ℕ → ℕ → CacheFacade V
new_facade enabled ttl generation = record {
  enabled = enabled;
  default_ttl_seconds = ttl;
  entries = [];
  tags = [];
  next_generation = generation;
  removed = [];
}

pub data Reachable {V : Type 0} (F : Type 0) (start : CacheFacade V) : CacheFacade V → Type 0 where
  started : Reachable F start start
  stepped : (s t : CacheFacade V) → Reachable F start s → Step F s t → Reachable F start t
