-- ===== src/Base/Map.antt =====
-- Hash maps (`HashMap`, `DashMap`, `BTreeMap` where its order plays no part) as association lists.
use mathlib.Core.Path.{◌≡◌, refl, subst}
use mathlib.Core.Logic.{inl, inr}
use mathlib.Core.Bool.{Bool}
use mathlib.Core.Option.{Option, none, some}
use mathlib.Core.List.{List, [], ◌∷◌}
use native.Mathlib.Omega.{arith}
use rust_api_modular_monolit.Base.Tests.{Eq, ◌==◌, beq_self, if◌then◌else◌, Bool-cases}

module _ {ℓ} {K V : Type ℓ} ⦃e : Eq K⦄ where
  unfoldable pub get : K → List (K × V) → Option V
  get k [] = none
  get k ((j, v) ∷ m) = if j == k then some v else get k m

  unfoldable pub remove : K → List (K × V) → List (K × V)
  remove k [] = []
  remove k ((j, v) ∷ m) = if j == k then remove k m else (j, v) ∷ remove k m

  unfoldable pub insert : K → V → List (K × V) → List (K × V)
  insert k v m = (k, v) ∷ remove k m

  unfoldable pub retain : (K → V → Bool) → List (K × V) → List (K × V)
  retain p [] = []
  retain p ((j, v) ∷ m) = if p j v then (j, v) ∷ retain p m else retain p m

  abbrev pub keep_entry : (K → V → Bool) → K → Option V → Option V
  keep_entry p k none = none
  keep_entry p k (some v) = if p k v then some v else none

  -- No key occurs twice: the list stands for a map.
  abbrev pub IsMap : List (K × V) → Type ℓ
  IsMap [] = Unit
  IsMap ((k, v) ∷ m) = (get k m ≡ none) × IsMap m

  pub get-remove :
      (k j : K) (m : List (K × V)) → get j (remove k m) ≡ (if k == j then none else get j m)
  unfolding get remove
  get-remove k j [] = ground arith
  get-remove k j ((i, v) ∷ m) =
      ground (arith, e.equals_iff k j, e.equals_iff i k, e.equals_iff i j, get-remove k j m)

  pub get-insert :
      (k j : K) (v : V) (m : List (K × V))
      → get j (insert k v m) ≡ (if k == j then some v else get j m)
  unfolding get insert
  get-insert k j v m = ground (arith, get-remove k j m)

  pub get-retain-none :
      (p : K → V → Bool) (k : K) (m : List (K × V)) → get k m ≡ none → get k (retain p m) ≡ none
  unfolding get retain
  get-retain-none p k [] h = refl
  get-retain-none p k ((j, v) ∷ m) h = ground (arith, get-retain-none p k m)

  pub get-retain :
      (p : K → V → Bool) (k : K) (m : List (K × V))
      → IsMap m
      → get k (retain p m) ≡ keep_entry p k (get k m)
  unfolding get retain
  get-retain p k [] h = refl
  get-retain p k ((j, v) ∷ m) h =
      ground
        (arith, e.equals_iff j k, get-retain p k m, get-retain-none p k m, get-retain-none p j m)

  pub remove-IsMap : (k : K) (m : List (K × V)) → IsMap m → IsMap (remove k m)
  unfolding remove
  remove-IsMap k [] h = tt
  remove-IsMap k ((j, v) ∷ m) h = ground (arith, remove-IsMap k m, get-remove k j m)

  pub insert-IsMap : (k : K) (v : V) (m : List (K × V)) → IsMap m → IsMap (insert k v m)
  unfolding insert
  insert-IsMap k v m h = ground (arith, get-remove k k m, beq_self k, remove-IsMap k m)

  pub retain-IsMap : (p : K → V → Bool) (m : List (K × V)) → IsMap m → IsMap (retain p m)
  unfolding retain
  retain-IsMap p [] h = tt
  retain-IsMap p ((j, v) ∷ m) h = ground (arith, retain-IsMap p m, get-retain-none p j m)

module _ {ℓ} {K V : Type ℓ} ⦃e : Eq K⦄ (P : V → Type ℓ) where
  -- Every value of the map has the property.
  abbrev pub AllValues : List (K × V) → Type ℓ
  AllValues [] = Unit
  AllValues ((k, v) ∷ m) = P v × AllValues m

  pub get-AllValues : (k : K) (m : List (K × V)) (v : V) → AllValues m → get k m ≡ some v → P v
  unfolding get
  get-AllValues k [] v h p = cc
  get-AllValues k ((j, w) ∷ m) v h p = elim (Bool-cases (j == k)) [
    | inl hit ↦ let q : some w ≡ some v = rw hit at p in let same : w ≡ v = cc in subst P same h.0
    | inr miss ↦ get-AllValues k m v h.1 (rw miss at p)
  ]

  pub remove-AllValues : (k : K) (m : List (K × V)) → AllValues m → AllValues (remove k m)
  unfolding remove
  remove-AllValues k [] h = tt
  remove-AllValues k ((j, w) ∷ m) h = elim (Bool-cases (j == k)) [
    | inl hit ↦ rw hit (remove-AllValues k m h.1)
    | inr miss ↦ rw miss (h.0, remove-AllValues k m h.1)
  ]

  pub insert-AllValues :
      (k : K) (v : V) (m : List (K × V)) → P v → AllValues m → AllValues (insert k v m)
  unfolding insert
  insert-AllValues k v m p h = (p, remove-AllValues k m h)

  pub retain-AllValues :
      (p : K → V → Bool) (m : List (K × V)) → AllValues m → AllValues (retain p m)
  unfolding retain
  retain-AllValues p [] h = tt
  retain-AllValues p ((j, w) ∷ m) h = elim (Bool-cases (p j w)) [
    | inl hit ↦ rw hit (h.0, retain-AllValues p m h.1)
    | inr miss ↦ rw miss (retain-AllValues p m h.1)
  ]
