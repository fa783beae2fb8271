-- ===== src/Configuration/Json.antt =====
-- `serde_json::Value`, and the ways by which crates/shared-kernel/src/config.rs reaches into one.
use rust_api_modular_monolit.Base.{
  ℕ, zero, suc, String, Bool, true, false, ◌&&◌, List, [], ◌∷◌, Option, none, some, ◌==◌, eq_string,
  if◌then◌else◌, is_some,
}
use rust_api_modular_monolit.Base.Text.{parse_usize}

mutual
  pub data Value : Type 0 where
    null : Value
    boolean : Bool → Value
    number : String → Value
    string : String → Value
    array : Items → Value
    object : Fields → Value

  pub data Items : Type 0 where
    empty : Items
    item : Value → Items → Items

  pub data Fields : Type 0 where
    end : Fields
    field : String → Value → Fields → Fields

unfoldable pub get_field : String → Fields → Option Value
get_field s end = none
get_field s (field k v fs) = if k == s then some v else get_field s fs

-- `Map::insert`, and a write through `get_mut`.
unfoldable pub put_field : String → Value → Fields → Fields
put_field s w end = field s w end
put_field s w (field k v fs) = if k == s then field k w fs else field k v (put_field s w fs)

unfoldable pub item_at : ℕ → Items → Option Value
item_at i empty = none
item_at zero (item v xs) = some v
item_at (suc i) (item v xs) = item_at i xs

unfoldable pub set_item : ℕ → Value → Items → Items
set_item i w empty = empty
set_item zero w (item v xs) = item w xs
set_item (suc i) w (item v xs) = item v (set_item i w xs)

-- `resize(n, Value::Null)` of an array that is shorter.
unfoldable pub pad : ℕ → Items → Items
pad zero xs = xs
pad (suc n) empty = item null (pad n empty)
pad (suc n) (item v xs) = item v (pad n xs)

abbrev pub item_or_null : Option Value → Value
item_or_null none = null
item_or_null (some v) = v

abbrev pub has_fields : Fields → Bool
has_fields end = false
has_fields (field k v fs) = true

-- Every key reads as an index.
unfoldable pub all_indices : Fields → Bool
all_indices end = true
all_indices (field k v fs) = is_some (parse_usize k) && all_indices fs

abbrev pub item_of : Option ℕ → Items → Option Value
item_of none xs = none
item_of (some i) xs = item_at i xs

-- One segment of `value_at`.
unfoldable pub step : String → Value → Option Value
unfolding get_field item_at
step s (object fs) = get_field s fs
step s (array xs) = item_of (parse_usize s) xs
step s null = none
step s (boolean b) = none
step s (number n) = none
step s (string t) = none

-- The loop of `value_at`.
unfoldable pub walk : List String → Value → Option Value
unfolding step
walk [] v = some v
walk (s ∷ path) v = elim (step s v) [ none ↦ none | some w ↦ walk path w ]
