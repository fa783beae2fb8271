-- ===== src/Administration/Genres.antt =====
-- `Genres` of crates/module-admin/src/services.rs.
use rust_api_modular_monolit.Base.{
  ℕ, String, Bool, true, false, not, List, [], ◌∷◌, ◌++◌, Option, none, some, ◌==◌, eq_nat,
  if◌then◌else◌, keep, find_first, any,
}
use rust_api_modular_monolit.Base.Result.{Result, ok, err}
use rust_api_modular_monolit.Base.Text.{format}
use rust_api_modular_monolit.Validation.{validate_genre}
use rust_api_modular_monolit.Problems.{ApiError, validation_failed, data_failed, database}
use rust_api_modular_monolit.Caching.{CacheFacade}
use rust_api_modular_monolit.Administration.{
  Setting, DataResult, Stored, cached, cached_list, invalidate_store,
}

-- `GenreApiModel`, and the row that it is made of.
pub record GenreApiModel : Type 0 where
  pub id : ℕ
  pub name : Option String

-- What the cache holds of the genres, among whatever else it holds.
pub data Cached (Other : Type 0) : Type 0 where
  one : GenreApiModel → Cached Other
  many : List GenreApiModel → Cached Other
  alien : Other → Cached Other

abbrev genre_of : {Other : Type 0} → Cached Other → Option GenreApiModel
genre_of (one g) = some g
genre_of (many gs) = none
genre_of (alien o) = none

abbrev genres_of : {Other : Type 0} → Cached Other → Option (List GenreApiModel)
genres_of (one g) = none
genres_of (many gs) = some gs
genres_of (alien o) = none

abbrev pub as_one : {Other : Type 0} → Stored GenreApiModel (Cached Other)
as_one = record { wrap = one; unwrap = genre_of }

abbrev pub as_many : {Other : Type 0} → Stored (List GenreApiModel) (Cached Other)
as_many = record { wrap = many; unwrap = genres_of }

-- The table in its physical order, and the cache.
pub record GenreStore (Other : Type 0) : Type 0 where
  pub rows : List GenreApiModel
  pub cache : CacheFacade (Cached Other)

-- `GENRE_TAGS`
abbrev pub genre_tags : List String
genre_tags = "administration:genre" ∷ "administration:genre:by-id" ∷ []

abbrev pub genre_tag : String
genre_tag = "administration:genre"

-- A query, or the failure of the database.
abbrev pub queried : {A : Type 0} → Option String → A → DataResult A
queried none a = ok a
queried (some fault) a = err (database fault)

abbrev pub find_genre : ℕ → List GenreApiModel → Option GenreApiModel
find_genre id rows = find_first (λ row. row.id == id) rows

abbrev pub has_genre : ℕ → List GenreApiModel → Bool
has_genre id rows = any (λ row. row.id == id) rows

-- `UPDATE … WHERE "Id" = $2`: the new version of the row stands at the table's end.
abbrev pub update_genre_row : ℕ → Option String → List GenreApiModel → List GenreApiModel
update_genre_row id name rows =
    keep (λ row. not (row.id == id)) rows ++ record { id = id; name = name } ∷ []

-- `DELETE … WHERE "Id" = $1`
abbrev pub delete_genre_row : ℕ → List GenreApiModel → List GenreApiModel
delete_genre_row id rows = keep (λ row. not (row.id == id)) rows

module _ (setting : Setting) {Other : Type 0} where
  -- `get_genre_by_id`
  unfoldable pub get_genre_by_id :
      (ℕ → ℕ)
      → Option String
      → ℕ
      → GenreStore Other
      → DataResult (Option GenreApiModel) × GenreStore Other
  unfolding cached
  get_genre_by_id jitter fault id s =
      let (answer, cache) =
        cached setting as_one jitter "genre" (format ("by-id:" ∷ setting.print id ∷ [])) genre_tags
          (queried fault (find_genre id s.rows)) s.cache in
      (answer, record s { cache = cache })

  -- `get_all_genres`
  unfoldable pub get_all_genres :
      (ℕ → ℕ)
      → Option String
      → GenreStore Other
      → DataResult (List GenreApiModel) × GenreStore Other
  unfolding cached_list
  get_all_genres jitter fault s =
      let (answer, cache) =
        cached_list setting as_many jitter "genre" "all" genre_tags (queried fault s.rows)
          s.cache in
      (answer, record s { cache = cache })

  -- A write whose statement changed a row, and what it leaves of the cache.
  unfoldable pub written : ℕ → List GenreApiModel → GenreStore Other → GenreStore Other
  unfolding invalidate_store
  written id rows s = record s {
    rows = rows;
    cache = invalidate_store setting "genre" genre_tag id s.cache;
  }

  -- The insert and what follows it; `id` is the next of the sequence.
  abbrev pub insert_genre :
      Option String
      → ℕ
      → Option String
      → GenreStore Other
      → Result GenreApiModel (ApiError String) × GenreStore Other
  insert_genre (some fault) id name s = (err (data_failed (database fault)), s)
  insert_genre none id name s =
      if has_genre id s.rows then (err (data_failed (database "duplicate key")), s) else (
        ok (record { id = id; name = name }),
        written id (s.rows ++ record { id = id; name = name } ∷ []) s,
      )

  -- `create_genre`
  unfoldable pub create_genre :
      Option String
      → ℕ
      → Option String
      → GenreStore Other
      → Result GenreApiModel (ApiError String) × GenreStore Other
  unfolding written
  create_genre fault id name s = elim (validate_genre setting.is_uppercase setting.print name) [
    | err errors ↦ (err (validation_failed errors), s)
    | ok valid ↦ insert_genre fault id name s
  ]

  abbrev pub change_genre :
      Option String
      → ℕ
      → List GenreApiModel
      → GenreStore Other
      → Result Bool (ApiError String) × GenreStore Other
  change_genre (some fault) id rows s = (err (data_failed (database fault)), s)
  change_genre none id rows s =
      if has_genre id s.rows then (ok true, written id rows s) else (ok false, s)

  -- `update_genre`
  unfoldable pub update_genre :
      Option String
      → ℕ
      → Option String
      → GenreStore Other
      → Result Bool (ApiError String) × GenreStore Other
  unfolding written
  update_genre fault id name s = elim (validate_genre setting.is_uppercase setting.print name) [
    | err errors ↦ (err (validation_failed errors), s)
    | ok valid ↦ change_genre fault id (update_genre_row id name s.rows) s
  ]

  -- `delete_genre`
  unfoldable pub delete_genre :
      Option String → ℕ → GenreStore Other → Result Bool (ApiError String) × GenreStore Other
  unfolding written
  delete_genre fault id s = change_genre fault id (delete_genre_row id s.rows) s
