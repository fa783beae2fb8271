-- ===== src/Caching/Tests.antt =====
-- Runs of the cache: an album that is written, read and invalidated.
use rust_api_modular_monolit.Base.{
  ℕ, ◌≡◌, refl, String, true, false, [], ◌∷◌, Option, none, eq_nat, eq_string, contains,
}
use rust_api_modular_monolit.Base.Map.{get, insert, remove}
use rust_api_modular_monolit.Base.Result.{Result, err}
use rust_api_modular_monolit.Caching.{
  CachedEntry, CacheFacade, CacheEntryOptions, for_service, register_tags, store, new_entry,
  register, write, write_steps, set, try_get_or_add, invalidate, invalidate_all, remove_by_tag,
  was_set, Reachable, started, stepped, new_facade,
}
use rust_api_modular_monolit.Caching.Freshness.{remove_by_tag-drops}
use rust_api_modular_monolit.Caching.Reading.{remove_by_tag-read}
use rust_api_modular_monolit.Caching.Overlap.{IsLost, write_steps-IsLost}
use rust_api_modular_monolit.Caching.Key.{CacheKey, segments, compose, is_plain, render-injective}

abbrev steady : ℕ → ℕ
steady ttl = ttl

abbrev empty : CacheFacade ℕ
empty = new_facade true 300 1

abbrev albums : CacheEntryOptions
albums = for_service ("albums" ∷ [])

abbrev artists : CacheEntryOptions
artists = for_service ("artists" ∷ [])

abbrev two : CacheFacade ℕ
two = set steady "artist:1" 8 artists (set steady "album:1" 7 albums empty)

two-Reachable : Reachable String empty two
two-Reachable =
    stepped (set steady "album:1" 7 albums empty) two
      (stepped empty (set steady "album:1" 7 albums empty) started
        (was_set empty steady "album:1" 7 albums))
      (was_set (set steady "album:1" 7 albums empty) steady "artist:1" 8 artists)

artist_entry : CachedEntry ℕ
artist_entry = record {
  value = 8;
  absolute = 1200;
  sliding = none;
  tags = "artists" ∷ [];
  generation = 2;
}

remove_by_tag-drops_example : contains artist_entry.tags "albums" ≡ false
unfolding set write write_steps store register new_entry register_tags get insert remove
    remove_by_tag invalidate_all invalidate artist_entry
remove_by_tag-drops_example =
    remove_by_tag-drops true 300 1 two "artist:1" "albums" artist_entry two-Reachable refl

failing : Result (Option ℕ) String
failing = err "down"

remove_by_tag-read_example :
    (try_get_or_add steady "artist:1" failing artists (remove_by_tag "artists" two)).0 ≡ failing
unfolding set write write_steps store register new_entry register_tags get insert remove
remove_by_tag-read_example =
    remove_by_tag-read true 300 1 steady "artist:1" "artists"
      (record { value = 8; absolute = 1200; sliding = none; tags = "artists" ∷ []; generation = 2 })
      failing artists two two-Reachable refl refl refl

write_steps-IsLost_example : IsLost steady "artist:1" "artists" 8 artists two
unfolding set write write_steps
write_steps-IsLost_example =
    write_steps-IsLost String true 300 1 steady "artist:1" "artists" 8 artists two two-Reachable
      refl refl

abbrev album_key : CacheKey
album_key =
    compose (λ s. s) (record { app = "api"; environment = "prod" }) "music" "album" "v1" "by-id:1"

render-injective_example :
    (segments album_key ≡ segments album_key) × (album_key.discriminator ≡ album_key.discriminator)
unfolding compose is_plain
render-injective_example =
    render-injective album_key album_key
      (refl, (refl, (refl, (refl, (refl, (refl, (refl, (refl, tt))))))))
      (refl, (refl, (refl, (refl, (refl, (refl, (refl, (refl, tt)))))))) refl
