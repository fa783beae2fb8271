-- ===== src/Configuration.antt =====
-- crates/shared-kernel/src/config.rs: the layers of the configuration and how they are laid over one
-- another. A `serde_json::Map` is its fields in any order, a number the text that it prints. figment
-- keeps the merged value and gives it back. The texts of the files, read or not, are arguments, and so
-- are the parser of JSON and `to_lowercase`.
pub mod Json
pub mod Environments
pub mod Merging
pub mod Steps
pub mod Layers
pub mod Arrays
pub mod Loading
pub mod Variables
mod Tests
use rust_api_modular_monolit.Base.{
  ℕ, zero, suc, ◌+◌, String, Bool, true, false, ◌&&◌, List, [], ◌∷◌, Option, none, some, ◌==◌,
  eq_string, if◌then◌else◌, is_some, map_option, get_or, map, ltb, eq_nat,
}
use rust_api_modular_monolit.Base.Result.{Result, ok, err, ◌>>=◌}
use rust_api_modular_monolit.Base.Text.{split_on, split_double, replace_char, parse_usize}
use rust_api_modular_monolit.Configuration.Environments.{Environment, exposes_operational_metadata}
use rust_api_modular_monolit.Configuration.Json.{
  Value, Items, Fields, null, boolean, number, string, array, object, empty, item, end, field,
  get_field, put_field, item_at, set_item, pad, item_or_null, walk, has_fields, all_indices,
}

-- A key as the index that it reads as.
abbrev pub index_of : String → ℕ
index_of k = get_or 0 (parse_usize k)

-- `merge_layer`, the base first. Its loops are `merge_fields`, `merge_items` and `merge_indexed`.
unfoldable mutual
  unfolding all_indices put_field get_field set_item item_at pad

  pub merge_layer : Value → Value → Value
  merge_layer (object bs) (object fs) = object (merge_fields bs fs)
  merge_layer (array xs) (array ys) = array (merge_items xs ys)
  merge_layer (array xs) (object fs) =
      let indexed = array (merge_indexed xs fs) in
      if has_fields fs && all_indices fs then indexed else object fs
  merge_layer base layer = layer

  pub merge_fields : Fields → Fields → Fields
  merge_fields bs end = bs
  merge_fields bs (field k v fs) =
      merge_fields (put_field k (elim (get_field k bs) [ none ↦ v | some b ↦ merge_layer b v ]) bs)
        fs

  pub merge_items : Items → Items → Items
  merge_items xs empty = xs
  merge_items empty (item v ys) = item v ys
  merge_items (item x xs) (item v ys) = item (merge_layer x v) (merge_items xs ys)

  pub merge_indexed : Items → Fields → Items
  merge_indexed xs end = xs
  merge_indexed xs (field k v fs) =
      let padded = pad (suc (index_of k)) xs in
      merge_indexed
        (set_item (index_of k) (merge_layer (item_or_null (item_at (index_of k) padded)) v) padded)
        fs

abbrev pub fields_of : Option Value → Fields
fields_of (some (object fs)) = fs
fields_of _ = end

-- `insert_at`. A value in the way that is no object gives way to one.
unfoldable pub insert_at : Fields → List String → Value → Fields
unfolding put_field get_field
insert_at root [] value = root
insert_at root (head ∷ []) value = put_field head value root
insert_at root (head ∷ next ∷ rest) value =
    put_field head (object (insert_at (fields_of (get_field head root)) (next ∷ rest) value)) root

-- The indexed entries of `as_index_sequence`, `none` where a key is no index.
abbrev pub Entry : Type 0
Entry = ℕ × Value

unfoldable pub indexed_entries : Fields → Option (List Entry)
indexed_entries end = some []
indexed_entries (field k v fs) = elim (parse_usize k) [
  | none ↦ none
  | some i ↦ map_option (λ entries. (i, v) ∷ entries) (indexed_entries fs)
]

abbrev pub ltb_index : Entry → Entry → Bool
ltb_index a b = ltb a.0 b.0

-- `sort_by_key`, which is stable.
unfoldable pub insert_sorted : Entry → List Entry → List Entry
insert_sorted e [] = e ∷ []
insert_sorted e (f ∷ es) = if ltb_index f e then f ∷ insert_sorted e es else e ∷ f ∷ es

unfoldable pub sort_entries : List Entry → List Entry
unfolding insert_sorted
sort_entries [] = []
sort_entries (e ∷ es) = insert_sorted e (sort_entries es)

-- The positions and the indices agree, from a position on: the values.
unfoldable pub dense_from : ℕ → List Entry → Option Items
dense_from n [] = some empty
dense_from n ((i, v) ∷ es) =
    let rest = map_option (item v) (dense_from (suc n) es) in if i == n then rest else none

abbrev pub dense : Option (List Entry) → Option Items
dense none = none
dense (some entries) = dense_from 0 (sort_entries entries)

-- `as_index_sequence`
unfoldable pub as_index_sequence : Fields → Option Items
unfolding indexed_entries sort_entries dense_from
as_index_sequence fs = if has_fields fs then dense (indexed_entries fs) else none

abbrev pub array_or_object : Option Items → Fields → Value
array_or_object none fs = object fs
array_or_object (some xs) fs = array xs

-- `numeric_maps_to_arrays`
unfoldable mutual
  unfolding as_index_sequence

  pub numeric_maps_to_arrays : Value → Value
  numeric_maps_to_arrays (object fs) =
      array_or_object (as_index_sequence (convert_fields fs)) (convert_fields fs)
  numeric_maps_to_arrays (array xs) = array (convert_items xs)
  numeric_maps_to_arrays null = null
  numeric_maps_to_arrays (boolean b) = boolean b
  numeric_maps_to_arrays (number n) = number n
  numeric_maps_to_arrays (string t) = string t

  pub convert_fields : Fields → Fields
  convert_fields end = end
  convert_fields (field k v fs) = field k (numeric_maps_to_arrays v) (convert_fields fs)

  pub convert_items : Items → Items
  convert_items empty = empty
  convert_items (item v xs) = item (numeric_maps_to_arrays v) (convert_items xs)

-- `merge_at` at the path's end: objects that meet there are merged, one level of keys at a time.
unfoldable mutual
  unfolding put_field get_field

  pub meet : Option Value → Value → Value
  meet (some (object existing)) (object incoming) = object (meet_fields existing incoming)
  meet _ value = value

  pub meet_fields : Fields → Fields → Fields
  meet_fields existing end = existing
  meet_fields existing (field k v fs) =
      meet_fields (put_field k (meet (get_field k existing) v) existing) fs

-- `merge_at`
unfoldable pub merge_at : Fields → List String → Value → Fields
unfolding put_field get_field meet
merge_at root [] value = root
merge_at root (head ∷ []) value = put_field head (meet (get_field head root) value) root
merge_at root (head ∷ next ∷ rest) value =
    put_field head (object (merge_at (fields_of (get_field head root)) (next ∷ rest) value)) root
