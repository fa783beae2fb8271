-- ===== src/Problems/Minting.antt =====
-- The identifiers of `new_trace_id` before `is_traceparent`, of crates/shared-kernel/src/errors.rs.
use Prim.Native.Char.{Char, code, len_utf8}
use Prim.Native.String.{len, [] as nil, ◌∷◌ as cons}
use Prim.Native.String.len as len_clauses
use rust_api_modular_monolit.Base.{
  ℕ, zero, suc, ◌+◌, ◌/◌, ◌%◌, ◌^◌, ◌<◌, ◌≡◌, refl, ap, ◌∙◌, String, Bool, true, false, not, ◌&&◌,
  ◌||◌, List, [], ◌∷◌, get_or, get_elem?, length, nat_eq, arith,
}
use rust_api_modular_monolit.Problems.Trace.{
  is_ascii_hexdigit, all_hex, any_nonzero, split_dashes, check_segments, is_traceparent, digits,
  digit, hex_onto, new_trace_id,
}

abbrev nonzero_digits : List Char
nonzero_digits =
    "1" ∷ "2" ∷ "3" ∷ "4" ∷ "5" ∷ "6" ∷ "7" ∷ "8" ∷ "9" ∷ "a" ∷ "b" ∷ "c" ∷ "d" ∷ "e" ∷ "f" ∷ []

-- Every character of a list passes a test.
abbrev every : (Char → Bool) → List Char → Bool
every p [] = true
every p (c ∷ cs) = p c && every p cs

every-get_elem? :
    (p : Char → Bool) (d : Char) (cs : List Char) (i : ℕ)
    → every p cs ≡ true
    → i < length cs
    → p (get_or d (get_elem? cs i)) ≡ true
every-get_elem? p d [] i all h = ground arith
every-get_elem? p d (c ∷ cs) zero all h = ground arith
every-get_elem? p d (c ∷ cs) (suc i) all h = ground (arith, every-get_elem? p d cs i)

abbrev is_plain : Char → Bool
is_plain c = is_ascii_hexdigit c && not (nat_eq (code c) 45) && nat_eq (len_utf8 c) 1

abbrev last_digit : ℕ → Char
last_digit v = digit (v % 16)

digit-plain : (v : ℕ) → is_plain (last_digit v) ≡ true
digit-plain v = every-get_elem? is_plain "0" digits (v % 16) refl (omega arith)

digit-nonzero : (d : ℕ) → d < 16 → not (nat_eq (code (digit d)) 48) ≡ not (nat_eq d 0)
digit-nonzero zero h = refl
digit-nonzero (suc d) h =
    let found : not (nat_eq (code (digit (suc d))) 48) ≡ true =
      every-get_elem? (λ c. not (nat_eq (code c) 48)) "0" nonzero_digits d refl (omega arith) in
    ground (arith, found)

last_digit-dash : (v : ℕ) → nat_eq (code (last_digit v)) 45 ≡ false
last_digit-dash v = ground (arith, digit-plain v)

last_digit-len : (v : ℕ) → len_utf8 (last_digit v) ≡ 1
last_digit-len v = ground (arith, digit-plain v)

last_digit-hex : (v : ℕ) → is_ascii_hexdigit (last_digit v) ≡ true
last_digit-hex v = ground (arith, digit-plain v)

-- A minted run of digits joins the first segment of what follows.
split-hex_onto :
    (n v : ℕ) (s segment : String) (segments : List String)
    → split_dashes s ≡ segment ∷ segments
    → split_dashes (hex_onto n v s) ≡ hex_onto n v segment ∷ segments
unfolding split_dashes hex_onto
split-hex_onto zero v s segment segments h = h
split-hex_onto (suc n) v s segment segments h =
    split-hex_onto n (v / 16) (cons (digit (v % 16)) s) (cons (digit (v % 16)) segment) segments
      (rw (last_digit-dash v, h) refl)

all_hex-hex_onto : (n v : ℕ) (s : String) → all_hex (hex_onto n v s) ≡ all_hex s
unfolding all_hex hex_onto
all_hex-hex_onto zero v s = refl
all_hex-hex_onto (suc n) v s =
    all_hex-hex_onto n (v / 16) (cons (digit (v % 16)) s) ∙ rw (last_digit-hex v) refl

len-hex_onto : (n v : ℕ) (s : String) → len (hex_onto n v s) ≡ n + len s
unfolding hex_onto
len-hex_onto zero v s = omega arith
len-hex_onto (suc n) v s =
    let rest = len-hex_onto n (v / 16) (cons (last_digit v) s) in
    let here : len (cons (last_digit v) s) ≡ len_utf8 (last_digit v) + len s =
      len_clauses.cons (last_digit v) s in
    omega (arith, rest, here, last_digit-len v)

any_digit : (v : ℕ) → (not (nat_eq (v / 16) 0) || not (nat_eq (v % 16) 0)) ≡ not (nat_eq v 0)
any_digit v = ground arith

any_nonzero-hex_onto :
    (n v : ℕ) (s : String)
    → v < 16 ^ n
    → any_nonzero (hex_onto n v s) ≡ (not (nat_eq v 0) || any_nonzero s)
unfolding any_nonzero hex_onto
any_nonzero-hex_onto zero v s h = ground arith
any_nonzero-hex_onto (suc n) v s h =
    any_nonzero-hex_onto n (v / 16) (cons (last_digit v) s) (omega arith)
    ∙ ground (arith, digit-nonzero (v % 16) (omega arith), any_digit v)

-- Between two dashes a run of digits is a segment.
split-joined :
    (n m trace span : ℕ)
    → split_dashes
        (cons "0" (cons "0" (cons "-" (hex_onto n trace (cons "-" (hex_onto m span "-00"))))))
      ≡ "00" ∷ hex_onto n trace "" ∷ hex_onto m span "" ∷ "00" ∷ []
unfolding split_dashes
split-joined n m trace span =
    let tail = split-hex_onto m span "-00" "" ("00" ∷ []) refl in
    let middle =
      split-hex_onto n trace (cons "-" (hex_onto m span "-00")) "" _
        (ap (λ rest. "" ∷ rest) tail) in
    rw middle refl

segment_len : (n v : ℕ) → len (hex_onto n v "") ≡ n
segment_len n v =
    let empty : len nil ≡ 0 = len_clauses.nil in omega (arith, len-hex_onto n v "", empty)

-- The service honors what it mints: `is_traceparent` accepts an identifier of `new_trace_id`, unless
-- one of its random halves is zero. They are a `u128` and a `u64`.
pub new_trace_id-is_traceparent :
    (trace span : ℕ)
    → trace < 16 ^ 32
    → span < 16 ^ 16
    → is_traceparent (new_trace_id trace span) ≡ (not (nat_eq trace 0) && not (nat_eq span 0))
unfolding is_traceparent new_trace_id any_nonzero all_hex
new_trace_id-is_traceparent trace span h k =
    ap check_segments (split-joined 32 16 trace span)
    ∙ rw
        (
          segment_len 32 trace,
          segment_len 16 span,
          all_hex-hex_onto 32 trace "",
          all_hex-hex_onto 16 span "",
          any_nonzero-hex_onto 32 trace "" h,
          any_nonzero-hex_onto 16 span "" k,
        )
        (ground arith)
