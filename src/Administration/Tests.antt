-- ===== src/Administration/Tests.antt =====
-- Runs of the genre service.
use Prim.Native.Char.{Char, code}
use Prim.Native.String.{[] as nil, ◌∷◌ as cons}
use rust_api_modular_monolit.Base.{
  ℕ, zero, suc, ◌≡◌, refl, ap, String, Bool, true, ◌&&◌, List, [], ◌∷◌, none, some, leb, arith,
}
use rust_api_modular_monolit.Base.Result.{ok}
use rust_api_modular_monolit.Base.Text.{count_chars}
use rust_api_modular_monolit.Caching.{new_facade}
use rust_api_modular_monolit.Caching.Key.{compose, is_plain}
use rust_api_modular_monolit.Administration.{Setting}
use rust_api_modular_monolit.Administration.Genres.{
  GenreApiModel, GenreStore, get_genre_by_id, get_all_genres, update_genre, find_genre,
}
use rust_api_modular_monolit.Administration.Steps.{
  HasKeys, Follows, begun, followed, reads_one, updates,
}
use rust_api_modular_monolit.Administration.Keys.{store_key-HasKeys}
use rust_api_modular_monolit.Administration.Current.{Follows-current}

abbrev upper : Char → Bool
upper c = leb 65 (code c) && leb (code c) 90

-- A number as so many strokes.
strokes : ℕ → String
strokes zero = nil
strokes (suc n) = cons "1" (strokes n)

count_chars-strokes : (n : ℕ) → count_chars (strokes n) ≡ n
unfolding strokes count_chars
count_chars-strokes zero = refl
count_chars-strokes (suc n) = ap suc (count_chars-strokes n)

strokes-injective : (a b : ℕ) → strokes a ≡ strokes b → a ≡ b
strokes-injective a b h =
    omega (arith, count_chars-strokes a, count_chars-strokes b, ap count_chars h)

abbrev setting : Setting
setting = record {
  is_uppercase = upper;
  to_lowercase = λ s. s;
  print = strokes;
  composer = record { app = "app"; environment = "test" };
}

setting-HasKeys : HasKeys setting
unfolding compose is_plain
setting-HasKeys =
    store_key-HasKeys setting strokes-injective
      (refl, (refl, (refl, (refl, (refl, (refl, (refl, (refl, tt))))))))

abbrev rows : List GenreApiModel
rows = record { id = 1; name = some "Rock" } ∷ record { id = 2; name = some "Jazz" } ∷ []

abbrev start : GenreStore ℕ
start = record { rows = rows; cache = new_facade true 300 1 }

abbrev steady : ℕ → ℕ
steady ttl = ttl

-- Genre 1 has been read, and then renamed.
abbrev was_read : GenreStore ℕ
was_read = (get_genre_by_id setting steady none 1 start).1

abbrev renamed : GenreStore ℕ
renamed = (update_genre setting none 1 (some "Metal") was_read).1

renaming : Follows setting start renamed
renaming =
    followed was_read renamed (followed start was_read begun (reads_one start steady none 1))
      (updates was_read none 1 (some "Metal"))

Follows-current_example :
    ((get_genre_by_id setting steady none 1 renamed).0 ≡ ok (find_genre 1 renamed.rows))
    × ((get_all_genres setting steady none renamed).0 ≡ ok renamed.rows)
Follows-current_example =
    Follows-current setting setting-HasKeys true 300 1 rows renamed steady 1 renaming
