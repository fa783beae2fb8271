-- ===== src/Validation/Display.antt =====
-- `split_pascal_case` of crates/validation-rules/src/lib.rs.
use Prim.Native.Char.{Char, code}
use Prim.Native.String.{[] as nil, ◌∷◌ as cons}
use rust_api_modular_monolit.Base.{
  ℕ, suc, ◌≡◌, refl, sym, ap, ◌∙◌, String, Bool, true, false, if◌then◌else◌, Bool-cases, inl, inr,
  if_both,
}
use rust_api_modular_monolit.Base.Text.{trim, trim_start, trim_end, is_whitespace, is_empty}
use rust_api_modular_monolit.Validation.{split_from, split_pascal_case}

-- The characters of a text that are not white space.
unfoldable pub solid : String → String
solid nil = nil
solid (cons c s) = if is_whitespace (code c) then solid s else cons c (solid s)

solid-trim_start : (s : String) → solid (trim_start s) ≡ solid s
unfolding solid trim_start
solid-trim_start nil = refl
solid-trim_start (cons c s) = elim (Bool-cases (is_whitespace (code c))) [
  | inl e ↦ rw e (solid-trim_start s)
  | inr e ↦ rw e (rw e refl)
]

solid-empty : (s : String) → is_empty s ≡ true → solid s ≡ nil
unfolding solid
solid-empty nil h = refl
solid-empty (cons c s) h = cc

solid-trim_end : (s : String) → solid (trim_end s) ≡ solid s
unfolding solid trim_end
solid-trim_end nil = refl
solid-trim_end (cons c s) = elim (Bool-cases (is_whitespace (code c))) [
  | inl e ↦ elim (Bool-cases (is_empty (trim_end s))) [
    | inl f ↦ rw (e, f) (sym (solid-empty (trim_end s) f) ∙ solid-trim_end s)
    | inr f ↦ rw (e, f) (rw e (solid-trim_end s))
  ]
  | inr e ↦ rw e (rw e (ap (cons c) (solid-trim_end s)))
]

-- The blank that is put in is not seen.
solid-cons : (c : Char) (s t : String) → solid s ≡ solid t → solid (cons c s) ≡ solid (cons c t)
unfolding solid
solid-cons c s t h = rw h refl

blank : (t : String) → solid (cons " " t) ≡ solid t
unfolding solid is_whitespace
blank t = refl

solid-split_from :
    (is_uppercase : Char → Bool) (index : ℕ) (previous : Bool) (s : String)
    → solid (split_from is_uppercase index previous s) ≡ solid s
unfolding split_from is_whitespace
solid-split_from is_uppercase index previous nil = refl
solid-split_from is_uppercase index previous (cons c s) =
    let rest = solid-cons c _ s (solid-split_from is_uppercase (suc index) (is_uppercase c) s) in
    if_both (λ (t : String). solid t ≡ solid (cons c s)) _ _ _ (blank _ ∙ rest) rest

-- The display name of a property is the property's name with white space put in: no other
-- character is added, lost or moved.
solid-split_pascal_case :
    (is_uppercase : Char → Bool) (name : String)
    → solid (split_pascal_case is_uppercase name) ≡ solid name
unfolding split_pascal_case trim
solid-split_pascal_case is_uppercase name =
    solid-trim_end (trim_start (split_from is_uppercase 0 false name))
    ∙ solid-trim_start (split_from is_uppercase 0 false name)
    ∙ solid-split_from is_uppercase 0 false name
