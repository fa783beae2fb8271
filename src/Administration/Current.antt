-- ===== src/Administration/Current.antt =====
-- The genre service of crates/module-admin/src/services.rs as its callers see it: whatever the cache
-- holds, a read answers what the table holds.
use rust_api_modular_monolit.Base.{
  ℕ, ◌≡◌, refl, sym, ap, ◌∙◌, String, Bool, List, Option, none, some, eq_string, inl, inr,
  Bool-cases, map_option,
}
use rust_api_modular_monolit.Base.Map.{get}
use rust_api_modular_monolit.Base.Result.{ok}
use rust_api_modular_monolit.Problems.{DataError}
use rust_api_modular_monolit.Caching.{CachedEntry, CacheFacade, for_service, new_facade}
use rust_api_modular_monolit.Caching.Reading.{answered, try_get_or_add-answer}
use rust_api_modular_monolit.Caching.Entries.{try_get_or_add-off}
use rust_api_modular_monolit.Administration.{Setting, DataResult, unwrapped, or_empty}
use rust_api_modular_monolit.Administration.Genres.{
  GenreApiModel, GenreStore, Cached, one, many, as_one, as_many, genre_tags, find_genre,
  get_genre_by_id, get_all_genres,
}
use rust_api_modular_monolit.Administration.Steps.{one_key, all_key, HasKeys, Follows, IsFresh}
use rust_api_modular_monolit.Administration.Fresh.{Follows-IsFresh, start-IsFresh}

module _ {Other : Type 0} where
  one_answered :
      (o : Option (CachedEntry (Cached Other))) (found : Option GenreApiModel)
      → ((e : CachedEntry (Cached Other)) → o ≡ some e → map_option one found ≡ some e.value)
      → unwrapped as_one (answered {F = DataError String} o (ok (map_option one found))) ≡ ok found
  one_answered none none fresh = refl
  one_answered none (some g) fresh = refl
  one_answered (some e) none fresh = cc (fresh e refl)
  one_answered (some e) (some g) fresh =
      let same : one g ≡ e.value = cc (fresh e refl) in
      ap (λ v. unwrapped as_one (ok (some v))) (sym same)

  many_answered :
      (o : Option (CachedEntry (Cached Other))) (rows : List GenreApiModel)
      → ((e : CachedEntry (Cached Other)) → o ≡ some e → e.value ≡ many rows)
      → or_empty (unwrapped as_many (answered {F = DataError String} o (ok (some (many rows)))))
        ≡ ok rows
  many_answered none rows fresh = refl
  many_answered (some e) rows fresh =
      ap (λ v. or_empty (unwrapped as_many (ok (some v)))) (fresh e refl)

module _ (setting : Setting) {Other : Type 0} (keys : HasKeys setting) (enabled : Bool)
    (ttl generation : ℕ) where
  hit_one :
      (jitter : ℕ → ℕ) (id : ℕ) (s : GenreStore Other)
      → IsFresh setting enabled ttl generation s
      → (get_genre_by_id setting jitter none id s).0 ≡ ok (find_genre id s.rows)
  unfolding get_genre_by_id
  hit_one jitter id s f =
      let answer : DataResult (Option (Cached Other)) =
        ok (map_option one (find_genre id s.rows)) in
      elim (Bool-cases s.cache.enabled) [
        | inl on ↦
            ap (unwrapped as_one) (
              try_get_or_add-answer jitter (one_key setting id) answer (for_service genre_tags)
                s.cache on)
            ∙ one_answered (get (one_key setting id) s.cache.entries) (find_genre id s.rows)
                (λ e h. (f.tagged_one id e h).1)
        | inr off ↦
            ap
              (λ (r : DataResult (Option (Cached Other)) × CacheFacade (Cached Other)).
                unwrapped as_one r.0)
              (try_get_or_add-off jitter (one_key setting id) answer (for_service genre_tags)
                s.cache off)
            ∙ one_answered none (find_genre id s.rows) (λ e h. cc)
      ]

  hit_all :
      (jitter : ℕ → ℕ) (s : GenreStore Other)
      → IsFresh setting enabled ttl generation s
      → (get_all_genres setting jitter none s).0 ≡ ok s.rows
  unfolding get_all_genres
  hit_all jitter s f =
      let answer : DataResult (Option (Cached Other)) = ok (some (many s.rows)) in
      elim (Bool-cases s.cache.enabled) [
        | inl on ↦
            ap (λ r. or_empty (unwrapped as_many r))
              (try_get_or_add-answer jitter (all_key setting) answer (for_service genre_tags)
                s.cache on)
            ∙ many_answered (get (all_key setting) s.cache.entries) s.rows
                (λ e h. (f.tagged_all e h).1)
        | inr off ↦
            ap
              (λ (r : DataResult (Option (Cached Other)) × CacheFacade (Cached Other)).
                or_empty (unwrapped as_many r.0))
              (try_get_or_add-off jitter (all_key setting) answer (for_service genre_tags) s.cache
                off)
            ∙ many_answered {Other = Other} none s.rows (λ e h. cc)
      ]

  -- No read is stale: after any series of calls, with failures of the database among them, and
  -- whatever the cache's other users and moka have dropped, told of or written under other keys,
  -- a read of one genre or of all answers what the table holds. The keys of different reads are
  -- different, and calls do not overlap.
  pub Follows-current :
      (rows : List GenreApiModel) (s : GenreStore Other) (jitter : ℕ → ℕ) (id : ℕ)
      → Follows setting (record { rows = rows; cache = new_facade enabled ttl generation }) s
      → ((get_genre_by_id setting jitter none id s).0 ≡ ok (find_genre id s.rows))
        × ((get_all_genres setting jitter none s).0 ≡ ok s.rows)
  Follows-current rows s jitter id path =
      let f =
        Follows-IsFresh setting keys enabled ttl generation _ s path
          (start-IsFresh setting keys enabled ttl generation rows) in
      (hit_one jitter id s f, hit_all jitter s f)
