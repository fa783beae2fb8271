-- ===== src/Endpoints.antt =====
-- crates/shared-kernel/src/endpoints.rs: the routes of a group and the layers about their handlers.
-- A service is what axum calls: it answers a request and leaves the server's state. What a layer of
-- another component does is a parameter: `refusal` is the answer by which `authorize` stops a
-- request, a limiter answers in the same way and counts the request, `params` are axum's raw path
-- parameters, and `is_uuid` tells whether `Uuid::parse_str` succeeds.
pub mod Layers
pub mod Routes
mod Tests
use Prim.Native.Char.{code}
use Prim.Native.String.{[] as nil, ◌∷◌ as cons}
use rust_api_modular_monolit.Base.{
  ℕ, ◌-◌, ◌^◌, String, Bool, true, false, not, ◌&&◌, List, [], ◌∷◌, ◌++◌, Option, none, some,
  if◌then◌else◌, leb, nat_eq, eq_string, ◌==◌, map, map_option, any, find_first,
}
use rust_api_modular_monolit.Base.Text.{unsigned, parse_digits, split_on, join, format}

-- `Constraint`
pub data Constraint : Type 0 where
  int guid : Constraint

abbrev fits : ℕ → Option ℕ → Bool
fits limit none = false
fits limit (some n) = leb n limit

-- Whether `parse::<i32>` succeeds: digits behind one sign at most, within the range.
unfoldable pub is_i32 : String → Bool
unfolding parse_digits
is_i32 nil = false
is_i32 (cons c s) =
    if nat_eq (code c) 45
    then fits (2 ^ 31) (unsigned s)
    else fits (2 ^ 31 - 1) (unsigned (if nat_eq (code c) 43 then s else cons c s))

module _ (is_uuid : String → Bool) where
  abbrev pub accepts : Constraint → String → Bool
  accepts int value = is_i32 value
  accepts guid value = is_uuid value

-- `strip_suffix` of one character, by its number.
unfoldable pub strip_suffix : ℕ → String → Option String
strip_suffix mark nil = none
strip_suffix mark (cons c nil) = if nat_eq (code c) mark then some nil else none
strip_suffix mark (cons c (cons d s)) = map_option (cons c) (strip_suffix mark (cons d s))

-- `strip_prefix('{')`, then `strip_suffix('}')`.
unfoldable pub inner_of : String → Option String
unfolding strip_suffix
inner_of nil = none
inner_of (cons c s) = if nat_eq (code c) 123 then strip_suffix 125 s else none

-- `split_once`, of one character.
unfoldable pub split_once : ℕ → String → Option (String × String)
split_once mark nil = none
split_once mark (cons c s) =
    let later = map_option (λ cut. (cons c cut.0, cut.1)) (split_once mark s) in
    if nat_eq (code c) mark then some (nil, s) else later

abbrev constraint_of : String → Option Constraint
constraint_of kind = if kind == "int" then some int else if kind == "guid" then some guid else none

-- The name and the constraint of a segment that has one.
abbrev named : Option (String × String) → Option (String × Constraint)
named none = none
named (some (name, kind)) = map_option (λ c. (name, c)) (constraint_of kind)

abbrev pub constrained : Option String → Option (String × Constraint)
unfolding split_once
constrained none = none
constrained (some inner) = named (split_once 58 inner)

-- What stands in axum's path for a segment.
abbrev pub axum_segment : String → Option (String × Constraint) → String
axum_segment segment none = segment
axum_segment segment (some (name, c)) = format ("{" ∷ name ∷ "}" ∷ [])

abbrev pub push_constraint :
    Option (String × Constraint) → List (String × Constraint) → List (String × Constraint)
push_constraint none rest = rest
push_constraint (some c) rest = c ∷ rest

-- The `map` over the segments: the path's segments and the constraints in their order.
unfoldable pub parse_segments : List String → List String × List (String × Constraint)
unfolding inner_of split_once
parse_segments [] = ([], [])
parse_segments (segment ∷ segments) =
    let rest = parse_segments segments in
    let own = constrained (inner_of segment) in
    (axum_segment segment own ∷ rest.0, push_constraint own rest.1)

-- `parse_route`
unfoldable pub parse_route : String → String × List (String × Constraint)
unfolding parse_segments split_on join
parse_route route = let parsed = parse_segments (split_on 47 route) in (join "/" parsed.0, parsed.1)

abbrev pub Service : Type 0 → Type 0 → Type 0 → Type 0
Service S Q R = Q → S → R × S

abbrev pub Filter : Type 0 → Type 0 → Type 0 → Type 0
Filter S Q R = Service S Q R → Service S Q R

-- `for filter in filters.iter().rev() { router = filter(router); }`
abbrev pub apply_all : {A : Type 0} → List (A → A) → A → A
apply_all [] router = router
apply_all (f ∷ filters) router = apply_all filters (f router)

unfoldable pub reverse_onto : {A : Type 0} → List A → List A → List A
reverse_onto done [] = done
reverse_onto done (f ∷ filters) = reverse_onto (f ∷ done) filters

unfoldable pub apply_reversed : {A : Type 0} → List (A → A) → A → A
unfolding reverse_onto
apply_reversed filters = apply_all (reverse_onto [] filters)

-- A layer that may answer in place of what it wraps.
abbrev pub guarded : {S Q R : Type 0} → (Q → S → Option R × S) → Filter S Q R
guarded guard next q s = elim (guard q s).0 [
  | none ↦ next q (guard q s).1
  | some answer ↦ (answer, (guard q s).1)
]

-- `EndpointConventions`, as far as it decides how a request is served.
pub record EndpointConventions (S Q R : Type 0) : Type 0 where
  pub policies : List String
  pub requires_authorization : Bool
  pub filters : List (Filter S Q R)

-- `Pending`, and `RouteGroup`'s limiter and filters.
pub record Pending (S Q R : Type 0) : Type 0 where
  pub path : String
  pub router : Service S Q R
  pub conventions : EndpointConventions S Q R

pub record RouteGroup (S Q R : Type 0) : Type 0 where
  pub rate_limiter : Option (Q → S → Option R × S)
  pub filters : List (Filter S Q R)

module _ (is_uuid : String → Bool) where
  abbrev is_refused : Option (String × Constraint) → String → Bool
  is_refused none value = false
  is_refused (some (name, c)) value = not (accepts is_uuid c value)

  -- The loop of `enforce_constraints`: a parameter whose constraint rejects it.
  abbrev pub rejects : List (String × Constraint) → List (String × String) → Bool
  rejects constraints = any (λ p. is_refused (find_first (λ c. c.0 == p.0) constraints) p.1)

  abbrev pub rejects_params : List (String × Constraint) → Option (List (String × String)) → Bool
  rejects_params constraints none = false
  rejects_params constraints (some ps) = rejects constraints ps

abbrev pub authorize_first :
    {S Q R : Type 0} → (List String → Q → Option R) → Bool → List String → Filter S Q R
authorize_first refusal false policies router = router
authorize_first refusal true policies router = guarded (λ q s. (refusal policies q, s)) router

abbrev pub limit : {S Q R : Type 0} → Option (Q → S → Option R × S) → Filter S Q R
limit none router = router
limit (some limiter) router = guarded limiter router

module _ {S Q R : Type 0} (is_uuid : String → Bool) (params : Q → Option (List (String × String)))
    (not_found : R) where
  -- `enforce_constraints`
  unfoldable pub enforce_constraints : List (String × Constraint) → Q → S → Option R × S
  unfolding is_i32
  enforce_constraints constraints q s =
      ((if rejects_params is_uuid constraints (params q) then some not_found else none), s)

  abbrev pub constrain : List (String × Constraint) → Filter S Q R
  constrain [] router = router
  constrain (c ∷ constraints) router = guarded (enforce_constraints (c ∷ constraints)) router

module _ {S Q R : Type 0} (is_uuid : String → Bool) (refusal : List String → Q → Option R)
    (params : Q → Option (List (String × String))) (not_found : R) where
  -- The layers that `drop` puts about a pending endpoint's handler.
  unfoldable pub route_of : RouteGroup S Q R → Pending S Q R → Service S Q R
  unfolding apply_reversed parse_route enforce_constraints
  route_of group pending =
      let conventions = pending.conventions in
      let filtered =
        apply_reversed group.filters (apply_reversed conventions.filters pending.router) in
      let authorized =
        authorize_first refusal conventions.requires_authorization conventions.policies filtered in
      constrain is_uuid params not_found (parse_route pending.path).1
        (limit group.rate_limiter authorized)
