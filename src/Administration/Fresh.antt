-- ===== src/Administration/Fresh.antt =====
-- The cache of the genre service of crates/module-admin/src/services.rs is never stale.
use rust_api_modular_monolit.Base.{
  ℕ, ◌≡◌, sym, ap, ◌∙◌, String, Bool, true, false, List, [], ◌∷◌, ◌++◌, Option, none, some,
  eq_string, contains, inl, inr, Bool-cases, map_option,
}
use rust_api_modular_monolit.Base.Map.{get}
use rust_api_modular_monolit.Base.Result.{ok, ok-inj, Result-cases}
use rust_api_modular_monolit.Problems.{DataError}
use rust_api_modular_monolit.Validation.{validate_genre}
use rust_api_modular_monolit.Caching.{
  CachedEntry, CacheFacade, for_service, invalidate, remove_entry, remove_by_tag, notify, Reachable,
  started, stepped, new_facade, was_set, was_read, was_removed, was_removed_by_tag, was_evicted,
  was_notified,
}
use rust_api_modular_monolit.Caching.Freshness.{remove_by_tag-drops}
use rust_api_modular_monolit.Caching.Reading.{get-remove_by_tag}
use rust_api_modular_monolit.Caching.Entries.{
  try_get_or_add-entries, set-entries, invalidate-entries,
}
use rust_api_modular_monolit.Administration.{Setting, wrapped, found_list}
use rust_api_modular_monolit.Administration.Genres.{
  GenreApiModel, GenreStore, Cached, one, many, as_one, as_many, genre_tags, genre_tag, queried,
  find_genre, has_genre, get_genre_by_id, get_all_genres, written, create_genre, update_genre,
  delete_genre, insert_genre, change_genre, update_genre_row, delete_genre_row,
}
use rust_api_modular_monolit.Administration.Steps.{
  one_key, all_key, HasKeys, Step, Follows, IsFresh, reads_one, reads_all, creates, updates,
  deletes, sets_other, drops_tag, drops, is_told, begun, followed,
}

module _ {Other : Type 0} where
  wrapped-queried :
      (fault : Option String) (o : Option GenreApiModel) (v : Cached Other)
      → wrapped as_one (queried fault o) ≡ ok (some v)
      → map_option one o ≡ some v
  wrapped-queried none o v h = ok-inj h
  wrapped-queried (some fault) o v h = cc

  wrapped-found_list :
      (fault : Option String) (rows : List GenreApiModel) (v : Cached Other)
      → wrapped as_many (found_list (queried fault rows)) ≡ ok (some v)
      → v ≡ many rows
  wrapped-found_list none rows v h = cc
  wrapped-found_list (some fault) rows v h = cc

module _ (setting : Setting) {Other : Type 0} where
  module _ (keys : HasKeys setting) (enabled : Bool) (ttl generation : ℕ) where
    abbrev pub Fresh : GenreStore Other → Type 0
    Fresh = IsFresh setting enabled ttl generation

    -- A change of the cache that adds no entry keeps it fresh.
    fewer-IsFresh :
        (s : GenreStore Other) (cache : CacheFacade (Cached Other))
        → ((j : String) (e : CachedEntry (Cached Other))
            → get j cache.entries ≡ some e
            → get j s.cache.entries ≡ some e)
        → Reachable (DataError String) (new_facade enabled ttl generation) cache
        → Fresh s
        → Fresh (record s { cache = cache })
    fewer-IsFresh s cache fewer path f = record {
      tagged_one = λ id e h. f.tagged_one id e (fewer _ e h);
      tagged_all = λ e h. f.tagged_all e (fewer _ e h);
      path = path;
    }

    cached_one-IsFresh :
        (jitter : ℕ → ℕ) (fault : Option String) (id : ℕ) (s : GenreStore Other)
        → Fresh s
        → Fresh (get_genre_by_id setting jitter fault id s).1
    unfolding get_genre_by_id
    cached_one-IsFresh jitter fault id s f = record {
      tagged_one = λ j e h.
          elim (try_get_or_add-entries jitter (one_key setting id) (one_key setting j)
            (wrapped as_one (queried fault (find_genre id s.rows))) (for_service genre_tags) s.cache
            e h) [
              | inl old ↦ f.tagged_one j e old
              | inr (k, t, v) ↦
                  let same : id ≡ j = keys.apart_ids id j k in
                  (
                    ap (λ tags. contains tags genre_tag) t,
                    ap (λ n. map_option one (find_genre n s.rows)) (sym same)
                        ∙ wrapped-queried fault (find_genre id s.rows) e.value v,
                  )
            ];
      tagged_all = λ e h.
          elim (try_get_or_add-entries jitter (one_key setting id) (all_key setting)
            (wrapped as_one (queried fault (find_genre id s.rows))) (for_service genre_tags) s.cache
            e h) [ inl old ↦ f.tagged_all e old | inr (k, t, v) ↦ absurd (keys.apart_all id k) ];
      path =
          stepped s.cache _ f.path
            (was_read s.cache jitter (one_key setting id) _ (for_service genre_tags));
    }

    cached_all-IsFresh :
        (jitter : ℕ → ℕ) (fault : Option String) (s : GenreStore Other)
        → Fresh s
        → Fresh (get_all_genres setting jitter fault s).1
    unfolding get_all_genres
    cached_all-IsFresh jitter fault s f = record {
      tagged_one = λ j e h.
          elim (try_get_or_add-entries jitter (all_key setting) (one_key setting j)
            (wrapped as_many (found_list (queried fault s.rows))) (for_service genre_tags) s.cache e
            h) [
              | inl old ↦ f.tagged_one j e old
              | inr (k, t, v) ↦ absurd (keys.apart_all j (sym k))
            ];
      tagged_all = λ e h.
          elim (try_get_or_add-entries jitter (all_key setting) (all_key setting)
            (wrapped as_many (found_list (queried fault s.rows))) (for_service genre_tags) s.cache e
            h) [
              | inl old ↦ f.tagged_all e old
              | inr (k, t, v) ↦ (
                ap (λ tags. contains tags genre_tag) t,
                wrapped-found_list fault s.rows e.value v,
              )
            ];
      path =
          stepped s.cache _ f.path
            (was_read s.cache jitter (all_key setting) _ (for_service genre_tags));
    }

    -- A write drops every entry of the genres, so that none can be stale.
    written-IsFresh :
        (id : ℕ) (rows : List GenreApiModel) (s : GenreStore Other)
        → Fresh s
        → Fresh (written setting id rows s)
    unfolding written remove_entry
    written-IsFresh id rows s f =
        let dropped = remove_by_tag genre_tag s.cache in
        let path = stepped s.cache dropped f.path (was_removed_by_tag s.cache genre_tag) in
        let own = one_key setting id in
        let gone =
          λ (j : String) (e : CachedEntry (Cached Other))
              (h : get j (invalidate own dropped).entries ≡ some e)
              (tagged : contains e.tags genre_tag ≡ true).
            let left = invalidate-entries own j dropped e h in
            let free =
              remove_by_tag-drops enabled ttl generation s.cache j genre_tag e f.path left in
            let no : false ≡ true = sym free ∙ tagged in no in
        record {
          tagged_one = λ j e h.
              let old =
                get-remove_by_tag _ genre_tag e s.cache (invalidate-entries own _ dropped e h) in
              let no : false ≡ true = gone _ e h (f.tagged_one j e old).0 in cc;
          tagged_all = λ e h.
              let old =
                get-remove_by_tag _ genre_tag e s.cache (invalidate-entries own _ dropped e h) in
              let no : false ≡ true = gone _ e h (f.tagged_all e old).0 in cc;
          path = stepped dropped _ path (was_removed dropped own);
        }

    insert_genre-IsFresh :
        (fault : Option String) (id : ℕ) (name : Option String) (s : GenreStore Other)
        → Fresh s
        → Fresh (insert_genre setting fault id name s).1
    insert_genre-IsFresh (some fault) id name s f = f
    insert_genre-IsFresh none id name s f = elim (Bool-cases (has_genre id s.rows)) [
      | inl e ↦ rw e f
      | inr e ↦ rw e (written-IsFresh id (s.rows ++ record { id = id; name = name } ∷ []) s f)
    ]

    change_genre-IsFresh :
        (fault : Option String) (id : ℕ) (rows : List GenreApiModel) (s : GenreStore Other)
        → Fresh s
        → Fresh (change_genre setting fault id rows s).1
    change_genre-IsFresh (some fault) id rows s f = f
    change_genre-IsFresh none id rows s f = elim (Bool-cases (has_genre id s.rows)) [
      | inl e ↦ rw e (written-IsFresh id rows s f)
      | inr e ↦ rw e f
    ]

    Step-IsFresh : (s t : GenreStore Other) → Step setting s t → Fresh s → Fresh t
    unfolding create_genre update_genre delete_genre notify
    Step-IsFresh s t (reads_one _ jitter fault id) f = cached_one-IsFresh jitter fault id s f
    Step-IsFresh s t (reads_all _ jitter fault) f = cached_all-IsFresh jitter fault s f
    Step-IsFresh s t (creates _ fault id name) f =
        elim (Result-cases (validate_genre setting.is_uppercase setting.print name)) [
          | inl (valid, e) ↦ rw (e, create_genre) (insert_genre-IsFresh fault id name s f)
          | inr (errors, e) ↦ rw (e, create_genre) f
        ]
    Step-IsFresh s t (updates _ fault id name) f =
        elim (Result-cases (validate_genre setting.is_uppercase setting.print name)) [
          | inl (valid, e) ↦
              rw (e, update_genre)
                (change_genre-IsFresh fault id (update_genre_row id name s.rows) s f)
          | inr (errors, e) ↦ rw (e, update_genre) f
        ]
    Step-IsFresh s t (deletes _ fault id) f =
        change_genre-IsFresh fault id (delete_genre_row id s.rows) s f
    Step-IsFresh s t (sets_other _ jitter key value options foreign foreign_all) f = record {
      tagged_one = λ j e h.
          elim (set-entries jitter key (one_key setting j) value options s.cache e h) [
            | inl old ↦ f.tagged_one j e old
            | inr k ↦ absurd (foreign j k)
          ];
      tagged_all = λ e h.
          elim (set-entries jitter key (all_key setting) value options s.cache e h) [
            | inl old ↦ f.tagged_all e old
            | inr k ↦ absurd (foreign_all k)
          ];
      path = stepped s.cache _ f.path (was_set s.cache jitter key value options);
    }
    Step-IsFresh s t (drops_tag _ tag) f =
        fewer-IsFresh s (remove_by_tag tag s.cache) (λ j e h. get-remove_by_tag j tag e s.cache h)
          (stepped s.cache _ f.path (was_removed_by_tag s.cache tag)) f
    Step-IsFresh s t (drops _ key) f =
        fewer-IsFresh s (invalidate key s.cache) (λ j e h. invalidate-entries key j s.cache e h)
          (stepped s.cache _ f.path (was_evicted s.cache key)) f
    Step-IsFresh s t (is_told _ before key entry rest r) f =
        fewer-IsFresh s (notify before key entry rest s.cache) (λ j e h. h)
          (stepped s.cache _ f.path (was_notified s.cache before key entry rest r)) f

    pub Follows-IsFresh :
        (start s : GenreStore Other) → Follows setting start s → Fresh start → Fresh s
    Follows-IsFresh start s begun f = f
    Follows-IsFresh start t (followed s _ before step) f =
        Step-IsFresh s t step (Follows-IsFresh start s before f)

    pub start-IsFresh :
        (rows : List GenreApiModel)
        → Fresh (record { rows = rows; cache = new_facade enabled ttl generation })
    unfolding get
    start-IsFresh rows = record {
      tagged_one = λ id e h. cc;
      tagged_all = λ e h. cc;
      path = started;
    }
