-- ===== src/Configuration/Arrays.antt =====
-- `numeric_maps_to_arrays` of crates/shared-kernel/src/config.rs loses nothing that a path reads.
use rust_api_modular_monolit.Base.{
  ℕ, suc, ◌+◌, ◌≡◌, refl, sym, ap, ◌∙◌, String, true, List, [], ◌∷◌, Option, none, some, ◌==◌,
  eq_string, eq_nat, arith, inl, inr, ◌⊎◌, Bool-cases, Option-cases, map_option, subst,
}
use rust_api_modular_monolit.Base.Text.{parse_usize}
use rust_api_modular_monolit.Configuration.Json.{
  Value, Items, Fields, null, boolean, number, string, array, object, item, end, field, get_field,
  item_at, step, walk, has_fields, item_of,
}
use rust_api_modular_monolit.Configuration.{
  numeric_maps_to_arrays, convert_fields, as_index_sequence, indexed_entries, insert_sorted,
  sort_entries, dense_from, dense, array_or_object, Entry, ltb_index,
}
use rust_api_modular_monolit.Configuration.Steps.{is_scalar}
use rust_api_modular_monolit.Configuration.Layers.{walk-nil, walk-step}

-- A path that goes through objects alone.
unfoldable pub reach : List String → Value → Option Value
unfolding get_field
reach [] v = some v
reach (s ∷ path) (object fs) = elim (get_field s fs) [ none ↦ none | some w ↦ reach path w ]
reach (s ∷ path) _ = none

-- An entry is in a list.
abbrev Has : Entry → List Entry → Type 0
Has e [] = ⊥
Has e (f ∷ es) = (f ≡ e) ⊎ Has e es

Has-insert_sorted :
    (e f : Entry) (es : List Entry) → (f ≡ e) ⊎ Has e es → Has e (insert_sorted f es)
unfolding insert_sorted
Has-insert_sorted e f [] h = h
Has-insert_sorted e f (g ∷ es) h = elim (Bool-cases (ltb_index g f)) [
  | inl b ↦ rw b (elim h [
    | inl q ↦ inr (Has-insert_sorted e f es (inl q))
    | inr (inl q) ↦ inl q
    | inr (inr r) ↦ inr (Has-insert_sorted e f es (inr r))
  ])
  | inr b ↦ rw b h
]

Has-sort_entries : (e : Entry) (es : List Entry) → Has e es → Has e (sort_entries es)
unfolding sort_entries
Has-sort_entries e [] h = h
Has-sort_entries e (f ∷ es) (inl q) = Has-insert_sorted e f (sort_entries es) (inl q)
Has-sort_entries e (f ∷ es) (inr r) =
    Has-insert_sorted e f (sort_entries es) (inr (Has-sort_entries e es r))

map_option-cases :
    {A B : Type 0} (f : A → B) (o : Option A) (b : B)
    → map_option f o ≡ some b
    → (a : A) × (o ≡ some a) × (f a ≡ b)
map_option-cases f none b h = cc
map_option-cases f (some a) b h = (a, refl, cc)

indexed_entries-Has :
    (s : String) (fs : Fields) (es : List Entry) (v : Value)
    → indexed_entries fs ≡ some es
    → get_field s fs ≡ some v
    → (i : ℕ) × (parse_usize s ≡ some i) × Has (i, v) es
unfolding indexed_entries get_field
indexed_entries-Has s end es v h g = cc
indexed_entries-Has s (field k w fs) es v h g = elim (Option-cases (parse_usize k)) [
  | inl e ↦ let no : none ≡ some es = rw (e, indexed_entries) at h in cc
  | inr (i, e) ↦
      let tail : map_option (λ entries. (i, w) ∷ entries) (indexed_entries fs) ≡ some es =
        rw (e, indexed_entries) at h in
      let (rest, below, all) = map_option-cases _ _ es tail in
      elim (Bool-cases (k == s)) [
        | inl hit ↦
            let name : k ≡ s = (eq_string.equals_iff k s).0 hit in
            let found : some w ≡ some v = rw hit at g in
            let same : w ≡ v = cc in
            let entry : Has (i, v) ((i, w) ∷ rest) = inl (ap (λ u. (i, u)) same) in
            (i, ap parse_usize (sym name) ∙ e, subst (Has (i, v)) all entry)
        | inr miss ↦
            let (j, p, has) = indexed_entries-Has s fs rest v below (rw miss at g) in
            (j, p, subst (Has (j, v)) all (inr has))
      ]
]

dense_from-item_at :
    (n : ℕ) (es : List Entry) (xs : Items) (i : ℕ) (v : Value)
    → dense_from n es ≡ some xs
    → Has (i, v) es
    → (j : ℕ) × (i ≡ n + j) × (item_at j xs ≡ some v)
unfolding dense_from item_at
dense_from-item_at n [] xs i v h has = elim has [ ]
dense_from-item_at n ((k, w) ∷ es) xs i v h has = elim (Bool-cases (k == n)) [
  | inr e ↦ let no : none ≡ some xs = rw e at h in cc
  | inl e ↦
      let tail : map_option (item w) (dense_from (suc n) es) ≡ some xs = rw e at h in
      let (ys, below, all) = map_option-cases _ _ xs tail in
      elim has [
        | inl q ↦
            let index : k ≡ i = ap (λ entry. entry.0) q in
            let here : k ≡ n = (eq_nat.equals_iff k n).0 e in
            let value : w ≡ v = ap (λ entry. entry.1) q in
            (0, omega arith, ap (item_at 0) (sym all) ∙ ap some value)
        | inr r ↦
            let (j, p, at) = dense_from-item_at (suc n) es ys i v below r in
            (suc j, omega arith, ap (item_at (suc j)) (sym all) ∙ at)
      ]
]

dense-item_at :
    (s : String) (fs : Fields) (xs : Items) (v : Value)
    → as_index_sequence fs ≡ some xs
    → get_field s fs ≡ some v
    → item_of (parse_usize s) xs ≡ some v
unfolding as_index_sequence
dense-item_at s fs xs v h g = elim (Bool-cases (has_fields fs)) [
  | inr e ↦ let no : none ≡ some xs = rw e at h in cc
  | inl e ↦
      let sorted : dense (indexed_entries fs) ≡ some xs = rw e at h in
      elim (Option-cases (indexed_entries fs)) [
        | inl none_indexed ↦ let no : none ≡ some xs = rw none_indexed at sorted in cc
        | inr (es, indexed) ↦
            let (i, p, has) = indexed_entries-Has s fs es v indexed g in
            let from_zero : dense_from 0 (sort_entries es) ≡ some xs = rw indexed at sorted in
            let (j, q, at) =
              dense_from-item_at 0 _ xs i v from_zero (Has-sort_entries (i, v) es has) in
            let same : i ≡ j = omega arith in
            ap (λ o. item_of o xs) p ∙ ap (λ n. item_at n xs) same ∙ at
      ]
]

get_field-convert_fields :
    (s : String) (fs : Fields)
    → get_field s (convert_fields fs) ≡ map_option numeric_maps_to_arrays (get_field s fs)
unfolding get_field numeric_maps_to_arrays
get_field-convert_fields s end = refl
get_field-convert_fields s (field k v fs) = ground (arith, get_field-convert_fields s fs)

-- The members of an object are read as before, also where it has become an array.
step-array_or_object :
    (s : String) (fs : Fields) (v : Value)
    → get_field s fs ≡ some v
    → step s (array_or_object (as_index_sequence fs) fs) ≡ some v
unfolding step
step-array_or_object s fs v g = elim (Option-cases (as_index_sequence fs)) [
  | inl e ↦ rw e g
  | inr (xs, e) ↦ rw e (dense-item_at s fs xs v e g)
]

numeric-object :
    (fs : Fields)
    → numeric_maps_to_arrays (object fs)
      ≡ array_or_object (as_index_sequence (convert_fields fs)) (convert_fields fs)
unfolding numeric_maps_to_arrays
numeric-object fs = refl

numeric-scalar : (v : Value) → is_scalar v ≡ true → numeric_maps_to_arrays v ≡ v
unfolding numeric_maps_to_arrays
numeric-scalar (array xs) h = cc
numeric-scalar (object fs) h = cc
numeric-scalar null h = refl
numeric-scalar (boolean b) h = refl
numeric-scalar (number n) h = refl
numeric-scalar (string t) h = refl

pub reach-nil : (v : Value) → reach [] v ≡ some v
unfolding reach
reach-nil v = refl

pub reach-cases :
    (s : String) (path : List String) (fs : Fields) (u : Value)
    → reach (s ∷ path) (object fs) ≡ some u
    → (w : Value) × (get_field s fs ≡ some w) × (reach path w ≡ some u)
unfolding reach
reach-cases s path fs u h = elim (Option-cases (get_field s fs)) [
  | inl e ↦ let no : none ≡ some u = rw (e, reach) at h in cc
  | inr (w, e) ↦ (w, e, rw (e, reach) at h)
]

pub numeric_maps_to_arrays-walk :
    (path : List String) (v u : Value)
    → is_scalar u ≡ true
    → reach path v ≡ some u
    → walk path (numeric_maps_to_arrays v) ≡ some u
unfolding reach
numeric_maps_to_arrays-walk [] v u h r =
    let same : v ≡ u = cc (reach-nil v) in
    ap (λ w. walk [] (numeric_maps_to_arrays w)) same
    ∙ ap (walk []) (numeric-scalar u h)
    ∙ walk-nil u
numeric_maps_to_arrays-walk (s ∷ path) (object fs) u h r =
    let (w, e, rest) = reach-cases s path fs u r in
    let read : get_field s (convert_fields fs) ≡ some (numeric_maps_to_arrays w) =
      get_field-convert_fields s fs ∙ ap (map_option numeric_maps_to_arrays) e in
    ap (walk (s ∷ path)) (numeric-object fs)
    ∙ walk-step s path _ _ (step-array_or_object s (convert_fields fs) _ read)
    ∙ numeric_maps_to_arrays-walk path w u h rest
numeric_maps_to_arrays-walk (s ∷ path) _ u h r = cc
