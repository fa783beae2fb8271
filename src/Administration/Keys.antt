-- ===== src/Administration/Keys.antt =====
-- The cache keys of the genres' reads, of crates/module-admin/src/services.rs.
use Prim.Native.Char.{Char, code}
use Prim.Native.String.{[] as nil, ◌∷◌ as cons, ◌++◌ as append}
use Prim.Native.String.append as pieces
use rust_api_modular_monolit.Base.{ℕ, ◌≡◌, ◌≢◌, sym, ap, ◌∙◌, String, true, [], ◌∷◌, All, arith}
use rust_api_modular_monolit.Base.Text.{format}
use rust_api_modular_monolit.Caching.Key.{segments, compose, is_plain, render-injective}
use rust_api_modular_monolit.Administration.{Setting, store_key}
use rust_api_modular_monolit.Administration.Steps.{HasKeys}

append-cancel : (s x y : String) → append s x ≡ append s y → x ≡ y
append-cancel nil x y h = sym (pieces.nil x) ∙ h ∙ pieces.nil y
append-cancel (cons c s) x y h =
    let inner : cons c (append s x) ≡ cons c (append s y) =
      sym (pieces.cons c s x) ∙ h ∙ pieces.cons c s y in
    append-cancel s x y cc

append-nil : (x : String) → append x nil ≡ x
append-nil nil = pieces.nil nil
append-nil (cons c s) = pieces.cons c s nil ∙ ap (cons c) (append-nil s)

abbrev discriminator : String → String
discriminator text = format ("by-id:" ∷ text ∷ [])

discriminator-injective : (x y : String) → discriminator x ≡ discriminator y → x ≡ y
unfolding format
discriminator-injective x y h =
    sym (append-nil x) ∙ append-cancel "by-id:" (append x nil) (append y nil) h ∙ append-nil y

discriminator-all : (x : String) → discriminator x ≢ "all"
unfolding format
discriminator-all x h =
    let b : Char = "b" in
    let a : Char = "a" in
    let first : cons b (append "y-id:" (append x nil)) ≡ cons a "ll" =
      sym (pieces.cons b "y-id:" (append x nil)) ∙ h in
    let same : b ≡ a = cc in absurd (omega (arith, ap code same))

-- `Display` of `i32` tells numbers apart, and no segment before the discriminator holds a colon: the
-- keys of different reads are different.
pub store_key-HasKeys :
    (setting : Setting)
    → ((a b : ℕ) → setting.print a ≡ setting.print b → a ≡ b)
    → All
        (λ s. is_plain s ≡ true)
        (segments
          (compose setting.to_lowercase setting.composer "administration" "genre" "v1" "all"))
    → HasKeys setting
unfolding store_key compose
store_key-HasKeys setting told plain = record {
  apart_ids =
      λ a b h. told a b (discriminator-injective _ _ (render-injective _ _ plain plain h).1);
  apart_all = λ a h. discriminator-all _ (render-injective _ _ plain plain h).1;
}
