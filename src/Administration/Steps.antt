-- ===== src/Administration/Steps.antt =====
-- The steps of the genre service of crates/module-admin/src/services.rs and of the cache that it
-- shares, and what the cache has to be.
use rust_api_modular_monolit.Base.{
  ℕ, ◌≡◌, ◌≢◌, String, Bool, true, List, [], ◌∷◌, ◌++◌, Option, some, eq_string, contains,
  map_option,
}
use rust_api_modular_monolit.Base.Map.{get}
use rust_api_modular_monolit.Base.Text.{format}
use rust_api_modular_monolit.Problems.{DataError}
use rust_api_modular_monolit.Caching.{
  CachedEntry, CacheEntryOptions, invalidate, set, remove_by_tag, notify, Reachable, new_facade,
}
use rust_api_modular_monolit.Administration.{Setting, store_key}
use rust_api_modular_monolit.Administration.Genres.{
  GenreStore, Cached, one, many, genre_tag, find_genre, get_genre_by_id, get_all_genres,
  create_genre, update_genre, delete_genre,
}

module _ (setting : Setting) where
  abbrev pub one_key : ℕ → String
  one_key id = store_key setting "genre" (format ("by-id:" ∷ setting.print id ∷ []))

  abbrev pub all_key : String
  all_key = store_key setting "genre" "all"

  -- The keys of different reads are different.
  pub record HasKeys : Type 0 where
    pub apart_ids : (a b : ℕ) → one_key a ≡ one_key b → a ≡ b
    pub apart_all : (a : ℕ) → one_key a ≢ all_key

module _ (setting : Setting) {Other : Type 0} where
  -- What stands between two states of the service: its own calls, and what the cache's other users
  -- and moka do to the cache.
  pub data Step : GenreStore Other → GenreStore Other → Type 0 where
    reads_one :
        (s : GenreStore Other) (jitter : ℕ → ℕ) (fault : Option String) (id : ℕ)
        → Step s (get_genre_by_id setting jitter fault id s).1
    reads_all :
        (s : GenreStore Other) (jitter : ℕ → ℕ) (fault : Option String)
        → Step s (get_all_genres setting jitter fault s).1
    creates :
        (s : GenreStore Other) (fault : Option String) (id : ℕ) (name : Option String)
        → Step s (create_genre setting fault id name s).1
    updates :
        (s : GenreStore Other) (fault : Option String) (id : ℕ) (name : Option String)
        → Step s (update_genre setting fault id name s).1
    deletes :
        (s : GenreStore Other) (fault : Option String) (id : ℕ)
        → Step s (delete_genre setting fault id s).1
    sets_other :
        (s : GenreStore Other) (jitter : ℕ → ℕ) (key : String) (value : Cached Other)
        (options : CacheEntryOptions)
        → ((id : ℕ) → key ≢ one_key setting id)
        → key ≢ all_key setting
        → Step s (record s { cache = set jitter key value options s.cache })
    drops_tag :
        (s : GenreStore Other) (tag : String)
        → Step s (record s { cache = remove_by_tag tag s.cache })
    drops :
        (s : GenreStore Other) (key : String) → Step s (record s { cache = invalidate key s.cache })
    is_told :
        (s : GenreStore Other) (before : List (String × CachedEntry (Cached Other))) (key : String)
        (entry : CachedEntry (Cached Other)) (rest : List (String × CachedEntry (Cached Other)))
        → s.cache.removed ≡ before ++ (key, entry) ∷ rest
        → Step s (record s { cache = notify before key entry rest s.cache })

  pub data Follows (start : GenreStore Other) : GenreStore Other → Type 0 where
    begun : Follows start start
    followed : (s t : GenreStore Other) → Follows start s → Step s t → Follows start t

  -- What the cache has of the genres is what the table has.
  pub record IsFresh (enabled : Bool) (ttl generation : ℕ) (s : GenreStore Other) : Type 0 where
    pub tagged_one :
        (id : ℕ) (e : CachedEntry (Cached Other))
        → get (one_key setting id) s.cache.entries ≡ some e
        → (contains e.tags genre_tag ≡ true)
          × (map_option one (find_genre id s.rows) ≡ some e.value)
    pub tagged_all :
        (e : CachedEntry (Cached Other))
        → get (all_key setting) s.cache.entries ≡ some e
        → (contains e.tags genre_tag ≡ true) × (e.value ≡ many s.rows)
    pub path : Reachable (DataError String) (new_facade enabled ttl generation) s.cache
