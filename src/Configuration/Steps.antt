-- ===== src/Configuration/Steps.antt =====
-- One segment of a path after `merge_layer` of crates/shared-kernel/src/config.rs.
use rust_api_modular_monolit.Base.{
  ℕ, ◌≤◌, ◌≡◌, refl, sym, ap, ◌∙◌, String, Bool, true, false, ◌&&◌, Option, none, some, ◌==◌,
  eq_string, eq_nat, is_some, arith, inl, inr, subst, Option-cases,
}
use rust_api_modular_monolit.Base.Text.{parse_usize}
use rust_api_modular_monolit.Configuration.Json.{
  Value, Items, Fields, null, boolean, number, string, array, object, item_or_null, step,
  has_fields, all_indices, item_of, get_field, field, end,
}
use rust_api_modular_monolit.Configuration.{index_of, merge_layer, merge_items, merge_indexed}
use rust_api_modular_monolit.Configuration.Merging.{
  find_hit, count_hits, get_field-find_hit, merge_fields-kept, merge_fields-merged,
  merge_items-item_at, merge_items-kept, merge_indexed-kept, merge_indexed-merged,
}

-- Neither an array nor an object.
abbrev pub is_scalar : Value → Bool
is_scalar (array xs) = false
is_scalar (object fs) = false
is_scalar _ = true

-- The layer is laid into the base and does not replace it.
abbrev pub merges : Value → Value → Bool
merges (object bs) (object fs) = true
merges (array xs) (array ys) = true
merges (array xs) (object fs) = has_fields fs && all_indices fs
merges _ _ = false

abbrev pub hits_index : Option ℕ → String → Bool
hits_index none k = false
hits_index (some i) k = index_of k == i

-- What the layer says of a segment that the base reads.
abbrev pub says : String → Value → Value → Option Value
says s (array xs) (object fs) = find_hit (hits_index (parse_usize s)) fs
says s _ layer = step s layer

-- The layer's members that the segment stands for in the base: in an array, those whose names read
-- as the same index.
abbrev pub members : String → Value → Value → ℕ
members s (object bs) (object fs) = count_hits (λ k. k == s) fs
members s (array xs) (object fs) = count_hits (hits_index (parse_usize s)) fs
members s _ _ = 0

find_hit-never : (fs : Fields) → find_hit (hits_index none) fs ≡ none
unfolding find_hit
find_hit-never end = refl
find_hit-never (field k v fs) = find_hit-never fs

items-merged :
    (o : Option ℕ) (xs ys : Items) (w : Value)
    → item_of o ys ≡ some w
    → item_of o (merge_items xs ys) ≡ some (merge_layer (item_or_null (item_of o xs)) w)
items-merged none xs ys w h = cc
items-merged (some i) xs ys w h = merge_items-item_at i xs ys w h

items-kept :
    (o : Option ℕ) (xs ys : Items) (c : Value)
    → item_of o ys ≡ none
    → item_of o xs ≡ some c
    → item_of o (merge_items xs ys) ≡ some c
items-kept none xs ys c h e = cc
items-kept (some i) xs ys c h e = merge_items-kept i xs ys c h e

indexed-merged :
    (o : Option ℕ) (xs : Items) (fs : Fields) (w : Value)
    → find_hit (hits_index o) fs ≡ some w
    → count_hits (hits_index o) fs ≤ 1
    → item_of o (merge_indexed xs fs) ≡ some (merge_layer (item_or_null (item_of o xs)) w)
indexed-merged none xs fs w h n = let miss : none ≡ some w = sym (find_hit-never fs) ∙ h in cc
indexed-merged (some i) xs fs w h n = merge_indexed-merged i fs xs w h n

indexed-kept :
    (o : Option ℕ) (xs : Items) (fs : Fields) (c : Value)
    → find_hit (hits_index o) fs ≡ none
    → item_of o xs ≡ some c
    → item_of o (merge_indexed xs fs) ≡ some c
indexed-kept none xs fs c h e = cc
indexed-kept (some i) xs fs c h e = merge_indexed-kept i fs xs c h e

merge_layer-indexed :
    (xs : Items) (fs : Fields)
    → merges (array xs) (object fs) ≡ true
    → merge_layer (array xs) (object fs) ≡ array (merge_indexed xs fs)
unfolding merge_layer
merge_layer-indexed xs fs m = rw m refl

-- A member that the layer has is merged with the base's.
pub step-merged :
    (s : String) (base layer w : Value)
    → merges base layer ≡ true
    → says s base layer ≡ some w
    → members s base layer ≤ 1
    → step s (merge_layer base layer) ≡ some (merge_layer (item_or_null (step s base)) w)
unfolding step merge_layer
step-merged s (object bs) (object fs) w m h n =
    merge_fields-merged s fs bs w (sym (get_field-find_hit s fs) ∙ h) n
step-merged s (array xs) (array ys) w m h n = items-merged (parse_usize s) xs ys w h
step-merged s (array xs) (object fs) w m h n =
    ap (step s) (merge_layer-indexed xs fs m) ∙ indexed-merged (parse_usize s) xs fs w h n
step-merged s null layer w m h n = cc
step-merged s (boolean b) layer w m h n = cc
step-merged s (number t) layer w m h n = cc
step-merged s (string t) layer w m h n = cc
step-merged s (object bs) null w m h n = cc
step-merged s (object bs) (boolean b) w m h n = cc
step-merged s (object bs) (number t) w m h n = cc
step-merged s (object bs) (string t) w m h n = cc
step-merged s (object bs) (array t) w m h n = cc
step-merged s (array bs) null w m h n = cc
step-merged s (array bs) (boolean b) w m h n = cc
step-merged s (array bs) (number t) w m h n = cc
step-merged s (array bs) (string t) w m h n = cc

-- A member that the layer does not have stays.
pub step-kept :
    (s : String) (base layer c : Value)
    → merges base layer ≡ true
    → says s base layer ≡ none
    → step s base ≡ some c
    → step s (merge_layer base layer) ≡ some c
unfolding step merge_layer
step-kept s (object bs) (object fs) c m h e =
    merge_fields-kept s fs bs (sym (get_field-find_hit s fs) ∙ h) ∙ e
step-kept s (array xs) (array ys) c m h e = items-kept (parse_usize s) xs ys c h e
step-kept s (array xs) (object fs) c m h e =
    ap (step s) (merge_layer-indexed xs fs m) ∙ indexed-kept (parse_usize s) xs fs c h e
step-kept s null layer c m h e = cc
step-kept s (boolean b) layer c m h e = cc
step-kept s (number t) layer c m h e = cc
step-kept s (string t) layer c m h e = cc
step-kept s (object bs) null c m h e = cc
step-kept s (object bs) (boolean b) c m h e = cc
step-kept s (object bs) (number t) c m h e = cc
step-kept s (object bs) (string t) c m h e = cc
step-kept s (object bs) (array t) c m h e = cc
step-kept s (array bs) null c m h e = cc
step-kept s (array bs) (boolean b) c m h e = cc
step-kept s (array bs) (number t) c m h e = cc
step-kept s (array bs) (string t) c m h e = cc

-- A layer that does not merge replaces the base.
pub merge_layer-replaces :
    (base layer : Value) → merges base layer ≡ false → merge_layer base layer ≡ layer
unfolding merge_layer
merge_layer-replaces (array xs) (object fs) m = rw m refl
merge_layer-replaces (object bs) (object fs) m = cc
merge_layer-replaces (array xs) (array ys) m = cc
merge_layer-replaces null layer m = refl
merge_layer-replaces (boolean b) layer m = refl
merge_layer-replaces (number t) layer m = refl
merge_layer-replaces (string t) layer m = refl
merge_layer-replaces (object bs) null m = refl
merge_layer-replaces (object bs) (boolean b) m = refl
merge_layer-replaces (object bs) (number t) m = refl
merge_layer-replaces (object bs) (string t) m = refl
merge_layer-replaces (object bs) (array t) m = refl
merge_layer-replaces (array bs) null m = refl
merge_layer-replaces (array bs) (boolean b) m = refl
merge_layer-replaces (array bs) (number t) m = refl
merge_layer-replaces (array bs) (string t) m = refl

pub merge_layer-scalar : (base v : Value) → is_scalar v ≡ true → merge_layer base v ≡ v
merge_layer-scalar base v h = merge_layer-replaces base v (not_merged base v h)
  where
    not_merged : (b v : Value) → is_scalar v ≡ true → merges b v ≡ false
    not_merged (array xs) (array ys) h = cc
    not_merged (array xs) (object ys) h = cc
    not_merged (object xs) (array ys) h = cc
    not_merged (object xs) (object ys) h = cc
    not_merged _ _ h = refl

module _ (s : String) where
  hits_index_self :
      (k : String)
      → is_some (parse_usize k) ≡ true
      → (k == s) ≡ true
      → hits_index (parse_usize s) k ≡ true
  hits_index_self k parsed e =
      let same : k ≡ s = (eq_string.equals_iff k s).0 e in
      let own : hits_index (parse_usize k) k ≡ true = elim (Option-cases (parse_usize k)) [
        | inl none_parsed ↦ let no : false ≡ true = rw none_parsed at parsed in cc
        | inr (i, p) ↦ rw p (rw p (ground arith))
      ] in
      subst (λ name. hits_index (parse_usize name) k ≡ true) same own

  count_hits-index :
      (fs : Fields) (w : Value)
      → all_indices fs ≡ true
      → get_field s fs ≡ some w
      → 1 ≤ count_hits (hits_index (parse_usize s)) fs
  unfolding get_field all_indices count_hits
  count_hits-index end w a h = cc
  count_hits-index (field k v fs) w a h = ground (arith, hits_index_self k, count_hits-index fs w)

  find_hit-index :
      (fs : Fields) (w : Value)
      → all_indices fs ≡ true
      → get_field s fs ≡ some w
      → count_hits (hits_index (parse_usize s)) fs ≤ 1
      → find_hit (hits_index (parse_usize s)) fs ≡ some w
  unfolding get_field all_indices count_hits find_hit
  find_hit-index end w a h n = cc
  find_hit-index (field k v fs) w a h n =
      ground (arith, hits_index_self k, count_hits-index fs w, find_hit-index fs w)

  pub says-step :
      (base layer w : Value)
      → merges base layer ≡ true
      → members s base layer ≤ 1
      → step s layer ≡ some w
      → says s base layer ≡ some w
  unfolding step
  says-step (array xs) (object fs) w m n h = find_hit-index fs w (ground (arith, m)) h n
  says-step (array xs) (array ys) w m n h = h
  says-step (object bs) layer w m n h = h
  says-step null layer w m n h = h
  says-step (boolean b) layer w m n h = h
  says-step (number t) layer w m n h = h
  says-step (string t) layer w m n h = h
  says-step (array xs) null w m n h = h
  says-step (array xs) (boolean b) w m n h = h
  says-step (array xs) (number t) w m n h = h
  says-step (array xs) (string t) w m n h = h
