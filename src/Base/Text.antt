-- ===== src/Base/Text.antt =====
-- `str` methods of Rust's standard library over the native strings, one character at a time.
use Prim.Native.Nat.{ℕ, zero, suc, ◌≤◌, ◌+◌, ◌-◌, ◌*◌, ◌^◌}
use Prim.Native.Char.{Char, code}
use Prim.Native.String.{String, [], ◌∷◌}
use Prim.Native.String.{◌++◌ as append}
use mathlib.Core.List.{List}
use mathlib.Core.Path.{◌≡◌, refl, ◌∙◌}
use mathlib.Core.Logic.{inl, inr}
use mathlib.Core.Bool.{Bool, true, false, ◌&&◌, ◌||◌}
use native.Mathlib.Omega.{arith}
use mathlib.Core.Option.{Option, none, some}
use rust_api_modular_monolit.Base.Tests.{
  leb, ltb, nat_eq, if◌then◌else◌, Bool-cases, if_true, if_false,
}

-- `char::is_whitespace`, which is Unicode's White_Space.
unfoldable pub is_whitespace : ℕ → Bool
is_whitespace c =
    (leb 9 c && leb c 13)
    || nat_eq c 32
    || nat_eq c 133
    || nat_eq c 160
    || nat_eq c 5760
    || (leb 8192 c && leb c 8202)
    || nat_eq c 8232
    || nat_eq c 8233
    || nat_eq c 8239
    || nat_eq c 8287
    || nat_eq c 12288

abbrev pub is_empty : String → Bool
is_empty [] = true
is_empty (c ∷ s) = false

unfoldable pub trim_start : String → String
trim_start [] = []
trim_start (c ∷ s) = if is_whitespace (code c) then trim_start s else c ∷ s

unfoldable pub trim_end : String → String
trim_end [] = []
trim_end (c ∷ s) =
    let rest = trim_end s in if is_whitespace (code c) && is_empty rest then [] else c ∷ rest

unfoldable pub trim : String → String
unfolding trim_start trim_end
trim s = trim_end (trim_start s)

-- `chars().count()`
unfoldable pub count_chars : String → ℕ
count_chars [] = 0
count_chars (c ∷ s) = suc (count_chars s)

-- Every character is white space; the empty text too.
unfoldable pub is_blank : String → Bool
is_blank [] = true
is_blank (c ∷ s) = is_whitespace (code c) && is_blank s

trim_end-blank : (s : String) → is_empty (trim_end s) ≡ is_blank s
unfolding trim_end is_blank
trim_end-blank [] = refl
trim_end-blank (c ∷ s) = ground (arith, trim_end-blank s)

-- `s.trim().is_empty()` says that `s` holds nothing but white space.
pub is_empty-trim : (s : String) → is_empty (trim s) ≡ is_blank s
unfolding trim trim_start is_blank
is_empty-trim [] = refl
is_empty-trim (c ∷ s) = ground (arith, is_empty-trim s, trim_end-blank (c ∷ s))

-- `format!`: the pieces one after another.
unfoldable pub format : List String → String
format List.[] = ""
format (List.◌∷◌ piece pieces) = append piece (format pieces)

-- `chars().take(limit).collect()`
unfoldable pub take_chars : ℕ → String → String
take_chars zero s = []
take_chars (suc n) [] = []
take_chars (suc n) (c ∷ s) = c ∷ take_chars n s

pub count_chars-take_chars-le : (n : ℕ) (s : String) → count_chars (take_chars n s) ≤ n
unfolding take_chars count_chars
count_chars-take_chars-le zero s = omega arith
count_chars-take_chars-le (suc n) [] = omega arith
count_chars-take_chars-le (suc n) (c ∷ s) = omega (arith, count_chars-take_chars-le n s)

-- `join`
unfoldable pub join : String → List String → String
join separator List.[] = ""
join separator (List.◌∷◌ piece List.[]) = piece
join separator (List.◌∷◌ piece pieces) = append piece (append separator (join separator pieces))

-- Rust's `split` on one character, by its number.
abbrev pub push_first : Char → List String → List String
push_first c List.[] = List.◌∷◌ (c ∷ []) List.[]
push_first c (List.◌∷◌ segment segments) = List.◌∷◌ (c ∷ segment) segments

unfoldable pub split_on : ℕ → String → List String
split_on mark [] = List.◌∷◌ [] List.[]
split_on mark (c ∷ s) =
    let rest = split_on mark s in
    if nat_eq (code c) mark then List.◌∷◌ [] rest else push_first c rest

-- The digits of `parse::<usize>`, from a value on. A number of more than 64 bits is an error.
unfoldable pub parse_digits : ℕ → String → Option ℕ
parse_digits n [] = some n
parse_digits n (c ∷ s) =
    let next = 10 * n + (code c - 48) in
    let rest = parse_digits next s in
    if leb 48 (code c) && leb (code c) 57 && ltb next (2 ^ 64) then rest else none

abbrev pub unsigned : String → Option ℕ
unsigned [] = none
unsigned (c ∷ s) = parse_digits 0 (c ∷ s)

-- `parse::<usize>`, which takes one plus sign.
unfoldable pub parse_usize : String → Option ℕ
unfolding parse_digits
parse_usize [] = none
parse_usize (c ∷ s) = if nat_eq (code c) 43 then unsigned s else unsigned (c ∷ s)

-- `split("__")`
unfoldable pub split_double : ℕ → String → List String
split_double mark [] = List.◌∷◌ [] List.[]
split_double mark (c ∷ []) = List.◌∷◌ (c ∷ []) List.[]
split_double mark (c ∷ d ∷ s) =
    let cut = List.◌∷◌ [] (split_double mark s) in
    let on = push_first c (split_double mark (d ∷ s)) in
    if nat_eq (code c) mark && nat_eq (code d) mark then cut else on

-- `replace` of one character by another.
unfoldable pub replace_char : ℕ → Char → String → String
replace_char from to [] = []
replace_char from to (c ∷ s) = (if nat_eq (code c) from then to else c) ∷ replace_char from to s

push_first-cons :
    (c : Char) (segments : List String)
    → (h : String) × (t : List String) × (push_first c segments ≡ List.◌∷◌ h t)
push_first-cons c List.[] = (c ∷ [], List.[], refl)
push_first-cons c (List.◌∷◌ segment segments) = (c ∷ segment, segments, refl)

-- There is always a first segment.
pub split_double-cons :
    (mark : ℕ) (s : String)
    → (h : String) × (t : List String) × (split_double mark s ≡ List.◌∷◌ h t)
unfolding split_double
split_double-cons mark [] = ([], List.[], refl)
split_double-cons mark (c ∷ []) = (c ∷ [], List.[], refl)
split_double-cons mark (c ∷ d ∷ s) =
    elim (Bool-cases (nat_eq (code c) mark && nat_eq (code d) mark)) [
      | inl cut ↦ ([], split_double mark s, if_true cut _ _)
      | inr on ↦
          let (h, t, e) = push_first-cons c (split_double mark (d ∷ s)) in
          (h, t, if_false on _ _ ∙ e)
    ]
