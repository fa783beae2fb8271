-- ===== src/Caching/Index.antt =====
-- The tag index of crates/shared-kernel/src/caching/facade.rs: what `register_tags` and
-- `forget_tags` make of the generation that a key is registered with under a tag.
use rust_api_modular_monolit.Base.{
  ℕ, ◌≡◌, refl, sym, String, true, false, ◌&&◌, List, [], ◌∷◌, Option, some, arith, ◌==◌, eq_nat,
  eq_string, if◌then◌else◌, nat_eq, get_or, contains, inl, inr, Bool-cases, Option-cases,
}
use rust_api_modular_monolit.Base.Map.{get, insert, remove, get-insert, get-remove}
use rust_api_modular_monolit.Caching.{
  TagIndex, register_tags, forget_tag, forget_tags, no_keys, is_generation,
}

-- The generation with which a key is registered under a tag.
unfoldable pub registered : String → String → TagIndex → Option ℕ
registered key tag index = get key (get_or [] (get tag index))

registered-register_tag :
    (index : TagIndex) (key k tag t : String) (generation : ℕ)
    → registered k t (insert tag (insert key generation (get_or [] (get tag index))) index)
      ≡ (if tag == t && key == k then some generation else registered k t index)
unfolding registered
registered-register_tag index key k tag t generation = ground (
  arith,
  eq_string.equals_iff tag t,
  get-insert tag t (insert key generation (get_or [] (get tag index))) index,
  get-insert key k generation (get_or [] (get tag index)),
)

pub registered-register_tags :
    (index : TagIndex) (key k t : String) (tags : List String) (generation : ℕ)
    → registered k t (register_tags index key tags generation)
      ≡ (if key == k && contains tags t then some generation else registered k t index)
unfolding register_tags
registered-register_tags index key k t [] generation = ground arith
registered-register_tags index key k t (tag ∷ tags) generation = ground (
  arith,
  registered-register_tags (insert tag (insert key generation (get_or [] (get tag index))) index)
      key k t tags generation,
  registered-register_tag index key k tag t generation,
)

no_keys-get :
    (k : String) (g : ℕ) (keys : List (String × ℕ)) → get k keys ≡ some g → no_keys keys ≡ false
unfolding get
no_keys-get k g [] h = cc
no_keys-get k g (j ∷ keys) h = refl

-- What forgetting leaves of the keys of a tag.
abbrev kept : String → ℕ → List (String × ℕ) → List (String × ℕ)
kept key generation keys = if is_generation generation (get key keys) then remove key keys else keys

get-kept :
    (key k : String) (generation g : ℕ) (keys : List (String × ℕ))
    → get k keys ≡ some g
    → (key == k && nat_eq g generation) ≡ false
    → get k (kept key generation keys) ≡ some g
get-kept key k generation g keys h other =
    elim (Bool-cases (is_generation generation (get key keys))) [
      | inl e ↦ elim (Bool-cases (key == k)) [
        | inl same ↦
            let eq : key ≡ k = (eq_string.equals_iff key k).0 same in
            let now : is_generation generation (some g) ≡ true = rw (eq, h) at e in
            absurd (ground arith)
        | inr apart ↦ rw (e, get-remove key k keys, apart) h
      ]
      | inr e ↦ rw e h
    ]

-- Forgetting a generation leaves what is registered with another.
registered-forget_tag :
    (index : TagIndex) (key k tag t : String) (generation g : ℕ)
    → registered k t index ≡ some g
    → (key == k && nat_eq g generation) ≡ false
    → registered k t (forget_tag index key tag generation) ≡ some g
unfolding registered forget_tag
registered-forget_tag index key k tag t generation g h other = elim (Option-cases (get tag index)) [
  | inl e ↦ rw (e, forget_tag) h
  | inr (keys, e) ↦ elim (Bool-cases (tag == t)) [
    | inl hit ↦
        let eq : tag ≡ t = (eq_string.equals_iff tag t).0 hit in
        let there : get k keys ≡ some g = rw (sym eq, e) at h in
        let stays = get-kept key k generation g keys there other in
        let some_left = no_keys-get k g (kept key generation keys) stays in
        rw (e, forget_tag, some_left, get-insert tag t (kept key generation keys) index, hit) stays
    | inr miss ↦ elim (Bool-cases (no_keys (kept key generation keys))) [
      | inl emptied ↦ rw (e, forget_tag, emptied, get-remove tag t index, miss) h
      | inr left ↦
          rw (e, forget_tag, left, get-insert tag t (kept key generation keys) index, miss) h
    ]
  ]
]

pub registered-forget_tags :
    (index : TagIndex) (key k t : String) (tags : List String) (generation g : ℕ)
    → registered k t index ≡ some g
    → (key == k && nat_eq g generation) ≡ false
    → registered k t (forget_tags index key tags generation) ≡ some g
unfolding forget_tags
registered-forget_tags index key k t [] generation g h other = h
registered-forget_tags index key k t (tag ∷ tags) generation g h other =
    registered-forget_tags (forget_tag index key tag generation) key k t tags generation g
      (registered-forget_tag index key k tag t generation g h other) other
