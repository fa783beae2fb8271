-- ===== src/Administration.antt =====
-- crates/module-admin/src/services.rs: the store's cached reads and invalidations, and the genre
-- service over its table and the cache of the module. An `i32` is its bit pattern, and its printing a
-- parameter; the id that a sequence gives, the failures of the database and the jitter of the cache
-- are arguments. A call is one step: calls do not overlap.
pub mod Genres
pub mod Steps
pub mod Keys
pub mod Fresh
pub mod Current
mod Tests
use Prim.Native.Char.{Char}
use rust_api_modular_monolit.Base.{
  ℕ, String, Bool, true, false, not, ◌||◌, List, [], ◌∷◌, ◌++◌, Option, none, some, ◌==◌, eq_nat,
  if◌then◌else◌, nat_eq, keep, find_first, any, map, map_option, is_some,
}
use rust_api_modular_monolit.Base.Result.{Result, ok, err, ◌>>=◌, map_err}
use rust_api_modular_monolit.Base.Text.{format}
use rust_api_modular_monolit.Validation.{ValidationErrors, validate_genre}
use rust_api_modular_monolit.Problems.{
  ApiError, validation_failed, data_failed, DataError, database,
}
use rust_api_modular_monolit.Caching.{
  CacheFacade, CacheEntryOptions, for_service, try_get_or_add, remove_by_tag, remove_entry,
}
use rust_api_modular_monolit.Caching.Key.{CacheKeyComposer, compose, render}

-- What the code uses of Unicode's tables, of `Display` for `i32` and of the key composer.
pub record Setting : Type 0 where
  pub is_uppercase : Char → Bool
  pub to_lowercase : String → String
  pub print : ℕ → String
  pub composer : CacheKeyComposer

-- `DataResult`, a driver's error being its text.
abbrev pub DataResult : Type 0 → Type 0
DataResult A = Result A (DataError String)

-- How a module's cache holds values of one type among others: `downcast_ref` gives back what was put
-- in.
pub record Stored (A V : Type 0) : Type 0 where
  pub wrap : A → V
  pub unwrap : V → Option A

abbrev pub unwrap_option : {A V : Type 0} → Stored A V → Option V → Option A
unwrap_option c none = none
unwrap_option c (some v) = c.unwrap v

abbrev pub unwrapped : {A V : Type 0} → Stored A V → DataResult (Option V) → DataResult (Option A)
unwrapped c (ok o) = ok (unwrap_option c o)
unwrapped c (err e) = err e

abbrev pub wrapped : {A V : Type 0} → Stored A V → DataResult (Option A) → DataResult (Option V)
wrapped c (ok o) = ok (map_option c.wrap o)
wrapped c (err e) = err e

abbrev pub or_empty : {A : Type 0} → DataResult (Option (List A)) → DataResult (List A)
or_empty (ok none) = ok []
or_empty (ok (some xs)) = ok xs
or_empty (err e) = err e

abbrev pub found_list : {A : Type 0} → DataResult (List A) → DataResult (Option (List A))
found_list (ok xs) = ok (some xs)
found_list (err e) = err e

module _ (setting : Setting) where
  -- The keys of `Store`; `MODULE` and `VERSION` are those of the module.
  unfoldable pub store_key : String → String → String
  store_key entity discriminator =
      render
        (compose setting.to_lowercase setting.composer "administration" entity "v1" discriminator)

  module _ {V : Type 0} where
    -- `Store::cached`. `loaded` is what the query comes to if it is run.
    unfoldable pub cached :
        {A : Type 0}
        → Stored A V
        → (ℕ → ℕ)
        → String
        → String
        → List String
        → DataResult (Option A)
        → CacheFacade V
        → DataResult (Option A) × CacheFacade V
    cached c jitter entity discriminator tags loaded s =
        let (answer, after) =
          try_get_or_add jitter (store_key entity discriminator) (wrapped c loaded)
            (for_service tags) s in
        (unwrapped c answer, after)

    -- `Store::cached_list`
    unfoldable pub cached_list :
        {A : Type 0}
        → Stored (List A) V
        → (ℕ → ℕ)
        → String
        → String
        → List String
        → DataResult (List A)
        → CacheFacade V
        → DataResult (List A) × CacheFacade V
    unfolding cached
    cached_list c jitter entity discriminator tags loaded s =
        let (answer, after) = cached c jitter entity discriminator tags (found_list loaded) s in
        (or_empty answer, after)

    -- `Store::invalidate`, with `tags[0]`.
    unfoldable pub invalidate_store : String → String → ℕ → CacheFacade V → CacheFacade V
    invalidate_store entity tag id s =
        remove_entry (store_key entity (format ("by-id:" ∷ setting.print id ∷ [])))
          (remove_by_tag tag s)
