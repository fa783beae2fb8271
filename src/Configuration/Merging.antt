-- ===== src/Configuration/Merging.antt =====
-- `merge_layer` of crates/shared-kernel/src/config.rs, one segment of a path at a time.
use rust_api_modular_monolit.Base.{
  ℕ, zero, suc, ◌+◌, ◌≤◌, ◌<◌, ◌≡◌, ◌≢◌, refl, sym, ap, ◌∙◌, String, Bool, false, Option, none,
  some, ◌==◌, eq_string, eq_nat, if◌then◌else◌, arith, inl, inr, Bool-cases, Option-cases,
}
use rust_api_modular_monolit.Configuration.Json.{
  Value, Items, Fields, null, empty, item, end, field, get_field, put_field, item_at, set_item, pad,
  item_or_null,
}
use rust_api_modular_monolit.Configuration.{
  index_of, merge_layer, merge_fields, merge_items, merge_indexed,
}

pub get_field-put_field :
    (j k : String) (v : Value) (fs : Fields)
    → get_field j (put_field k v fs) ≡ (if k == j then some v else get_field j fs)
unfolding get_field put_field
get_field-put_field j k v end = ground arith
get_field-put_field j k v (field i w fs) = ground (
  arith,
  get_field-put_field j k v fs,
  eq_string.equals_iff i k,
  eq_string.equals_iff k j,
  eq_string.equals_iff i j,
)

-- The value that the layer's member of a name has.
unfoldable pub find_hit : (String → Bool) → Fields → Option Value
find_hit p end = none
find_hit p (field k v fs) = if p k then some v else find_hit p fs

unfoldable pub count_hits : (String → Bool) → Fields → ℕ
count_hits p end = 0
count_hits p (field k v fs) = (if p k then 1 else 0) + count_hits p fs

pub find_hit-none : (p : String → Bool) (fs : Fields) → count_hits p fs ≡ 0 → find_hit p fs ≡ none
unfolding find_hit count_hits
find_hit-none p end h = refl
find_hit-none p (field k v fs) h = ground (arith, find_hit-none p fs)

item_at-pad :
    (i n : ℕ) (xs : Items) (c : Value) → item_at i xs ≡ some c → item_at i (pad n xs) ≡ some c
unfolding item_at pad
item_at-pad i zero xs c h = h
item_at-pad i (suc n) empty c h = cc
item_at-pad zero (suc n) (item v xs) c h = h
item_at-pad (suc i) (suc n) (item v xs) c h = item_at-pad i n xs c h

item_or_null-pad :
    (i n : ℕ) (xs : Items) → item_or_null (item_at i (pad n xs)) ≡ item_or_null (item_at i xs)
unfolding item_at pad
item_or_null-pad i zero xs = refl
item_or_null-pad zero (suc n) empty = refl
item_or_null-pad (suc i) (suc n) empty = item_or_null-pad i n empty
item_or_null-pad zero (suc n) (item v xs) = refl
item_or_null-pad (suc i) (suc n) (item v xs) = item_or_null-pad i n xs

item_at-set_item-pad :
    (i n : ℕ) (w : Value) (xs : Items) → i < n → item_at i (set_item i w (pad n xs)) ≡ some w
unfolding item_at pad set_item
item_at-set_item-pad i zero w xs h = absurd (omega arith)
item_at-set_item-pad zero (suc n) w empty h = refl
item_at-set_item-pad (suc i) (suc n) w empty h = item_at-set_item-pad i n w empty (omega arith)
item_at-set_item-pad zero (suc n) w (item v xs) h = refl
item_at-set_item-pad (suc i) (suc n) w (item v xs) h = item_at-set_item-pad i n w xs (omega arith)

item_at-set_item_ne :
    (i j : ℕ) (w : Value) (xs : Items) → j ≢ i → item_at j (set_item i w xs) ≡ item_at j xs
unfolding item_at set_item
item_at-set_item_ne i j w empty h = refl
item_at-set_item_ne zero zero w (item v xs) h = absurd (h refl)
item_at-set_item_ne zero (suc j) w (item v xs) h = refl
item_at-set_item_ne (suc i) zero w (item v xs) h = refl
item_at-set_item_ne (suc i) (suc j) w (item v xs) h =
    item_at-set_item_ne i j w xs (λ e. h (ap suc e))

merge_layer-null : (w : Value) → merge_layer null w ≡ w
unfolding merge_layer
merge_layer-null w = refl

pub get_field-find_hit : (s : String) (fs : Fields) → get_field s fs ≡ find_hit (λ k. k == s) fs
unfolding get_field find_hit
get_field-find_hit s end = refl
get_field-find_hit s (field k v fs) = rw (get_field-find_hit s fs) refl

merge_fields-end : (bs : Fields) → merge_fields bs end ≡ bs
unfolding merge_fields
merge_fields-end bs = refl

-- The first member is merged with what the base has under its name, and the others after it.
merge_fields-field :
    (k : String) (v : Value) (bs fs : Fields)
    → merge_fields bs (field k v fs)
      ≡ merge_fields (put_field k (merge_layer (item_or_null (get_field k bs)) v) bs) fs
unfolding merge_fields
merge_fields-field k v bs fs = elim (Option-cases (get_field k bs)) [
  | inl e ↦ rw e refl
  | inr (b, e) ↦ rw e refl
]

pub hits_rest : (n : ℕ) → 1 + n ≤ 1 → n ≡ 0
hits_rest n h = omega arith

module _ (s : String) where
  -- A member that the layer does not have keeps its value.
  pub merge_fields-kept :
      (fs bs : Fields)
      → find_hit (λ k. k == s) fs ≡ none
      → get_field s (merge_fields bs fs) ≡ get_field s bs
  unfolding find_hit
  merge_fields-kept end bs h = ap (get_field s) (merge_fields-end bs)
  merge_fields-kept (field k v fs) bs h = elim (Bool-cases (k == s)) [
    | inl e ↦ let miss : some v ≡ none = rw e at h in cc
    | inr e ↦
        ap (get_field s) (merge_fields-field k v bs fs)
        ∙ merge_fields-kept fs _ (rw e at h)
        ∙ get_field-put_field s k _ bs
        ∙ rw e refl
  ]

  -- A member that the layer has once is merged.
  pub merge_fields-merged :
      (fs bs : Fields) (w : Value)
      → find_hit (λ k. k == s) fs ≡ some w
      → count_hits (λ k. k == s) fs ≤ 1
      → get_field s (merge_fields bs fs) ≡ some (merge_layer (item_or_null (get_field s bs)) w)
  unfolding find_hit count_hits
  merge_fields-merged end bs w h n = cc
  merge_fields-merged (field k v fs) bs w h n = elim (Bool-cases (k == s)) [
    | inl e ↦
        let one : 1 + count_hits (λ k. k == s) fs ≤ 1 = rw e at n in
        let found : some v ≡ some w = rw e at h in
        let same : v ≡ w = cc in
        let name : k ≡ s = (eq_string.equals_iff k s).0 e in
        ap (get_field s) (merge_fields-field k v bs fs)
        ∙ merge_fields-kept fs _ (find_hit-none _ fs (hits_rest _ one))
        ∙ get_field-put_field s k _ bs
        ∙ rw e (rw (name, same) refl)
    | inr e ↦
        let rest : 0 + count_hits (λ k. k == s) fs ≤ 1 = rw e at n in
        let same : get_field s (put_field k (merge_layer (item_or_null (get_field k bs)) v) bs)
            ≡ get_field s bs =
          get_field-put_field s k _ bs ∙ rw e refl in
        ap (get_field s) (merge_fields-field k v bs fs)
        ∙ merge_fields-merged fs _ w (rw e at h) (omega arith)
        ∙ ap (λ o. some (merge_layer (item_or_null o) w)) same
  ]

-- The loop over an array, one element at a time.
pub merge_items-item_at :
    (i : ℕ) (xs ys : Items) (w : Value)
    → item_at i ys ≡ some w
    → item_at i (merge_items xs ys) ≡ some (merge_layer (item_or_null (item_at i xs)) w)
unfolding item_at merge_items
merge_items-item_at i xs empty w h = cc
merge_items-item_at i empty (item v ys) w h = h ∙ ap some (sym (merge_layer-null w))
merge_items-item_at zero (item x xs) (item v ys) w h =
    let same : v ≡ w = cc in ap (λ u. some (merge_layer x u)) same
merge_items-item_at (suc i) (item x xs) (item v ys) w h = merge_items-item_at i xs ys w h

pub merge_items-kept :
    (i : ℕ) (xs ys : Items) (c : Value)
    → item_at i ys ≡ none
    → item_at i xs ≡ some c
    → item_at i (merge_items xs ys) ≡ some c
unfolding item_at merge_items
merge_items-kept i xs empty c h e = e
merge_items-kept i empty (item v ys) c h e = cc
merge_items-kept zero (item x xs) (item v ys) c h e = cc
merge_items-kept (suc i) (item x xs) (item v ys) c h e = merge_items-kept i xs ys c h e

-- `base[index]`, after the array has been made long enough.
abbrev write_item : ℕ → Value → Items → Items
write_item i v xs =
    set_item i (merge_layer (item_or_null (item_at i (pad (suc i) xs))) v) (pad (suc i) xs)

merge_indexed-field :
    (k : String) (v : Value) (xs : Items) (fs : Fields)
    → merge_indexed xs (field k v fs) ≡ merge_indexed (write_item (index_of k) v xs) fs
unfolding merge_indexed
merge_indexed-field k v xs fs = refl

merge_indexed-end : (xs : Items) → merge_indexed xs end ≡ xs
unfolding merge_indexed
merge_indexed-end xs = refl

write_item-item_at :
    (i : ℕ) (v : Value) (xs : Items)
    → item_at i (write_item i v xs) ≡ some (merge_layer (item_or_null (item_at i xs)) v)
write_item-item_at i v xs =
    item_at-set_item-pad i (suc i) _ xs (omega arith)
    ∙ ap (λ b. some (merge_layer b v)) (item_or_null-pad i (suc i) xs)

other_index : (k : String) (j : ℕ) → (index_of k == j) ≡ false → j ≢ index_of k
other_index k j other = ground arith

module _ (j : ℕ) where
  write_item-kept :
      (i : ℕ) (v : Value) (xs : Items) (c : Value)
      → j ≢ i
      → item_at j xs ≡ some c
      → item_at j (write_item i v xs) ≡ some c
  write_item-kept i v xs c ne h =
      item_at-set_item_ne i j _ (pad (suc i) xs) ne ∙ item_at-pad j (suc i) xs c h

  write_item-null :
      (i : ℕ) (v : Value) (xs : Items)
      → j ≢ i
      → item_or_null (item_at j (write_item i v xs)) ≡ item_or_null (item_at j xs)
  write_item-null i v xs ne =
      ap item_or_null (item_at-set_item_ne i j _ (pad (suc i) xs) ne)
      ∙ item_or_null-pad j (suc i) xs

  pub merge_indexed-kept :
      (fs : Fields) (xs : Items) (c : Value)
      → find_hit (λ k. index_of k == j) fs ≡ none
      → item_at j xs ≡ some c
      → item_at j (merge_indexed xs fs) ≡ some c
  unfolding find_hit
  merge_indexed-kept end xs c h e = ap (item_at j) (merge_indexed-end xs) ∙ e
  merge_indexed-kept (field k v fs) xs c h e = elim (Bool-cases (index_of k == j)) [
    | inl hit ↦ let miss : some v ≡ none = rw hit at h in cc
    | inr other ↦
        let ne : j ≢ index_of k = other_index k j other in
        ap (item_at j) (merge_indexed-field k v xs fs)
        ∙ merge_indexed-kept fs _ c (rw other at h) (write_item-kept (index_of k) v xs c ne e)
  ]

  pub merge_indexed-merged :
      (fs : Fields) (xs : Items) (w : Value)
      → find_hit (λ k. index_of k == j) fs ≡ some w
      → count_hits (λ k. index_of k == j) fs ≤ 1
      → item_at j (merge_indexed xs fs) ≡ some (merge_layer (item_or_null (item_at j xs)) w)
  unfolding find_hit count_hits
  merge_indexed-merged end xs w h n = cc
  merge_indexed-merged (field k v fs) xs w h n = elim (Bool-cases (index_of k == j)) [
    | inl hit ↦
        let one : 1 + count_hits (λ k. index_of k == j) fs ≤ 1 = rw hit at n in
        let found : some v ≡ some w = rw hit at h in
        let same : v ≡ w = cc in
        let here : index_of k ≡ j = (eq_nat.equals_iff _ _).0 hit in
        let written : item_at j (write_item (index_of k) v xs)
            ≡ some (merge_layer (item_or_null (item_at j xs)) w) =
          rw (here, same) (write_item-item_at j w xs) in
        ap (item_at j) (merge_indexed-field k v xs fs)
        ∙ merge_indexed-kept fs _ _ (find_hit-none _ fs (hits_rest _ one)) written
    | inr other ↦
        let rest : 0 + count_hits (λ k. index_of k == j) fs ≤ 1 = rw other at n in
        let ne : j ≢ index_of k = other_index k j other in
        ap (item_at j) (merge_indexed-field k v xs fs)
        ∙ merge_indexed-merged fs _ w (rw other at h) (omega arith)
        ∙ ap (λ b. some (merge_layer b w)) (write_item-null (index_of k) v xs ne)
  ]
