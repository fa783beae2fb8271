-- ===== src/Configuration/Layers.antt =====
-- What a path reads after `merge_layer` of crates/shared-kernel/src/config.rs.
use rust_api_modular_monolit.Base.{
  ℕ, ◌≤◌, ◌≡◌, refl, ap, ◌∙◌, String, Bool, true, false, ◌&&◌, ◌||◌, List, [], ◌∷◌, none, some,
  eq_string, eq_nat, leb, arith, inl, inr, Bool-cases, Option-cases, ◌==◌, is_some,
}
use rust_api_modular_monolit.Base.Text.{parse_usize}
use rust_api_modular_monolit.Configuration.Json.{
  Value, Fields, item_or_null, step, walk, object, array, field, end, all_indices, null,
}
use rust_api_modular_monolit.Configuration.{merge_layer}
use rust_api_modular_monolit.Configuration.Merging.{count_hits}
use rust_api_modular_monolit.Configuration.Steps.{
  is_scalar, merges, says, members, step-merged, merge_layer-replaces, hits_index,
  merge_layer-scalar, says-step,
}

-- A member's name stands for a segment: it is the segment, or both read as the same index.
abbrev pub stands_for : String → String → Bool
stands_for s k = k == s || (is_some (parse_usize k) && hits_index (parse_usize s) k)

abbrev layer_members : String → Value → ℕ
layer_members s (object fs) = count_hits (stands_for s) fs
layer_members s _ = 0

-- No segment of the path stands for two members of a layer.
unfoldable pub unambiguous : List String → Value → Bool
unfolding step count_hits
unambiguous [] layer = true
unambiguous (s ∷ path) layer =
    leb (layer_members s layer) 1
    && elim (step s layer) [ none ↦ true | some w ↦ unambiguous path w ]

-- Whatever the layer has on the way to the path is laid into what the base has there, and does not
-- replace it: an object meets an object, an array an array, or an object whose names are all indices
-- an array.
unfoldable pub meets : List String → Value → Value → Bool
meets [] base layer = true
meets (s ∷ path) base layer =
    merges base layer
    && elim (says s base layer) [ none ↦ true | some w ↦ meets path (item_or_null (step s base)) w ]

-- The layer says nothing of the path, nor of a value on the way to it.
unfoldable pub silent : List String → Value → Value → Bool
silent [] base layer = false
silent (s ∷ path) base layer = leb (members s base layer) 1 && elim (says s base layer) [
  | none ↦ true
  | some w ↦ silent path (item_or_null (step s base)) w
]

pub walk-nil : (v : Value) → walk [] v ≡ some v
unfolding walk
walk-nil v = refl

pub walk-step :
    (s : String) (path : List String) (v w : Value)
    → step s v ≡ some w
    → walk (s ∷ path) v ≡ walk path w
unfolding walk
walk-step s path v w h = rw (h, walk) refl

-- A walk that arrives takes its first step.
walk-cases :
    (s : String) (path : List String) (v u : Value)
    → walk (s ∷ path) v ≡ some u
    → (w : Value) × (step s v ≡ some w) × (walk path w ≡ some u)
unfolding walk
walk-cases s path v u h = elim (Option-cases (step s v)) [
  | inl e ↦ let no : none ≡ some u = rw (e, walk) at h in cc
  | inr (w, e) ↦ (w, e, rw (e, walk) at h)
]

unambiguous-parts :
    (s : String) (path : List String) (layer w : Value)
    → unambiguous (s ∷ path) layer ≡ true
    → step s layer ≡ some w
    → (layer_members s layer ≤ 1) × (unambiguous path w ≡ true)
unfolding unambiguous
unambiguous-parts s path layer w c e = ground (arith, e)

count_hits-name :
    (s : String) (fs : Fields) → count_hits (λ k. k == s) fs ≤ count_hits (stands_for s) fs
unfolding count_hits
count_hits-name s end = omega arith
count_hits-name s (field k v fs) = ground (arith, count_hits-name s fs)

count_hits-stands_for :
    (s : String) (fs : Fields)
    → all_indices fs ≡ true
    → count_hits (hits_index (parse_usize s)) fs ≤ count_hits (stands_for s) fs
unfolding count_hits all_indices
count_hits-stands_for s end a = omega arith
count_hits-stands_for s (field k v fs) a = ground (arith, count_hits-stands_for s fs)

members-le :
    (s : String) (base layer : Value)
    → merges base layer ≡ true
    → members s base layer ≤ layer_members s layer
members-le s (object bs) (object fs) m = count_hits-name s fs
members-le s (array xs) (object fs) m = count_hits-stands_for s fs (ground (arith, m))
members-le s (array xs) (array ys) m = omega arith
members-le s null layer m = cc
members-le s _ _ m = ground arith

-- The later layer wins: a scalar that a layer has at a path is read there after the layer has been
-- laid over any base, whether the base has objects, arrays, scalars or nothing on the way. No segment
-- of the path stands for two members of the layer.
pub merge_layer-wins :
    (path : List String) (base layer v : Value)
    → walk path layer ≡ some v
    → is_scalar v ≡ true
    → unambiguous path layer ≡ true
    → walk path (merge_layer base layer) ≡ some v
merge_layer-wins [] base layer v h sc c =
    let same : layer ≡ v = cc (walk-nil layer) in
    ap (λ w. walk [] (merge_layer base w)) same
    ∙ ap (walk []) (merge_layer-scalar base v sc)
    ∙ walk-nil v
merge_layer-wins (s ∷ path) base layer v h sc c =
    let (w, e, rest) = walk-cases s path layer v h in
    let (once, below) = unambiguous-parts s path layer w c e in
    elim (Bool-cases (merges base layer)) [
      | inl m ↦
          let few : members s base layer ≤ 1 = omega (arith, members-le s base layer m) in
          walk-step s path _ _ (step-merged s base layer w m (says-step s base layer w m few e) few)
          ∙ merge_layer-wins path _ w v rest sc below
      | inr m ↦ ap (walk (s ∷ path)) (merge_layer-replaces base layer m) ∙ h
    ]
