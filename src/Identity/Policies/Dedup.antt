-- ===== src/Identity/Policies/Dedup.antt =====
-- `deduplicate` of crates/shared-kernel/src/auth.rs.
use rust_api_modular_monolit.Base.{
  ◌≡◌, refl, ◌∙◌, String, false, not, ◌&&◌, List, [], ◌∷◌, arith, eq_string, contains, beq_self,
}
use rust_api_modular_monolit.Identity.Policies.{deduplicate_from, deduplicate}

-- No value stands twice.
abbrev pub Distinct : List String → Type 0
Distinct [] = Unit
Distinct (value ∷ values) = (contains values value ≡ false) × Distinct values

contains-deduplicate_from :
    (seen values : List String) (v : String)
    → contains (deduplicate_from seen values) v ≡ (contains values v && not (contains seen v))
unfolding deduplicate_from
contains-deduplicate_from seen [] v = refl
contains-deduplicate_from seen (value ∷ values) v = ground (
  arith,
  contains-deduplicate_from seen values v,
  contains-deduplicate_from (value ∷ seen) values v,
  eq_string.equals_iff value v,
)

deduplicate_from-Distinct : (seen values : List String) → Distinct (deduplicate_from seen values)
unfolding deduplicate_from
deduplicate_from-Distinct seen [] = tt
deduplicate_from-Distinct seen (value ∷ values) = ground (
  arith,
  deduplicate_from-Distinct seen values,
  deduplicate_from-Distinct (value ∷ seen) values,
  contains-deduplicate_from (value ∷ seen) values value,
  beq_self value,
)

-- The values are told apart and none is lost or added.
deduplicate-Distinct :
    (values : List String) (v : String)
    → Distinct (deduplicate values) × (contains (deduplicate values) v ≡ contains values v)
unfolding deduplicate
deduplicate-Distinct values v =
    (deduplicate_from-Distinct [] values, contains-deduplicate_from [] values v ∙ ground arith)
