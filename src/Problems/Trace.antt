-- ===== src/Problems/Trace.antt =====
-- `is_traceparent` and `new_trace_id` of crates/shared-kernel/src/errors.rs. The random numbers are
-- arguments, a `u128` and a `u64`. `{:032x}` of a `u128` is its 32 hexadecimal digits.
use Prim.Native.Char.{Char, code}
use Prim.Native.String.{len, [] as nil, ◌∷◌ as cons}
use rust_api_modular_monolit.Base.{
  ℕ, zero, suc, ◌/◌, ◌%◌, String, Bool, true, false, not, ◌&&◌, ◌||◌, List, [], ◌∷◌, get_or,
  get_elem?, nat_eq, leb, if◌then◌else◌,
}

-- `char::is_ascii_hexdigit`
abbrev pub is_ascii_hexdigit : Char → Bool
is_ascii_hexdigit c =
    (leb 48 (code c) && leb (code c) 57)
    || (leb 65 (code c) && leb (code c) 70)
    || (leb 97 (code c) && leb (code c) 102)

-- `chars().all(is_ascii_hexdigit)`
unfoldable pub all_hex : String → Bool
all_hex nil = true
all_hex (cons c s) = is_ascii_hexdigit c && all_hex s

-- `chars().any(|c| c != '0')`
unfoldable pub any_nonzero : String → Bool
any_nonzero nil = false
any_nonzero (cons c s) = not (nat_eq (code c) 48) || any_nonzero s

abbrev pub push_first : Char → List String → List String
push_first c [] = cons c nil ∷ []
push_first c (segment ∷ segments) = cons c segment ∷ segments

-- `split('-')`
unfoldable pub split_dashes : String → List String
split_dashes nil = nil ∷ []
split_dashes (cons c s) =
    let rest = split_dashes s in if nat_eq (code c) 45 then nil ∷ rest else push_first c rest

abbrev pub check_segments : List String → Bool
check_segments (version ∷ trace ∷ span ∷ flags ∷ []) =
    nat_eq (len version) 2
    && nat_eq (len trace) 32
    && nat_eq (len span) 16
    && nat_eq (len flags) 2
    && (all_hex version && all_hex trace && all_hex span && all_hex flags)
    && any_nonzero trace
    && any_nonzero span
check_segments _ = false

-- `is_traceparent`
unfoldable pub is_traceparent : String → Bool
unfolding split_dashes all_hex any_nonzero
is_traceparent value = check_segments (split_dashes value)

abbrev pub digits : List Char
digits =
    "0" ∷ "1" ∷ "2" ∷ "3" ∷ "4" ∷ "5" ∷ "6" ∷ "7" ∷ "8" ∷ "9" ∷ "a" ∷ "b" ∷ "c" ∷ "d" ∷ "e" ∷ "f"
    ∷ []

abbrev pub digit : ℕ → Char
digit d = get_or "0" (get_elem? digits d)

-- The last `n` hexadecimal digits of a number, before a text.
unfoldable pub hex_onto : ℕ → ℕ → String → String
hex_onto zero v s = s
hex_onto (suc n) v s = hex_onto n (v / 16) (cons (digit (v % 16)) s)

-- `new_trace_id`
unfoldable pub new_trace_id : ℕ → ℕ → String
unfolding hex_onto
new_trace_id trace span =
    cons "0" (cons "0" (cons "-" (hex_onto 32 trace (cons "-" (hex_onto 16 span "-00")))))
