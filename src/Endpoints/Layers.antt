-- ===== src/Endpoints/Layers.antt =====
-- crates/shared-kernel/src/endpoints.rs: in which order the layers of a route meet a request.
use rust_api_modular_monolit.Base.{
  ◌≡◌, refl, ap, ◌∙◌, inl, inr, String, Bool, true, false, List, [], ◌∷◌, Option, none, some,
  if◌then◌else◌, Option-cases,
}
use rust_api_modular_monolit.Endpoints.{
  Constraint, Service, apply_all, reverse_onto, apply_reversed, guarded, Pending, RouteGroup,
  rejects, rejects_params, enforce_constraints, limit, constrain, authorize_first, parse_route,
  route_of,
}

-- Filters about a router, the first outermost.
abbrev pub wrap : {A : Type 0} → List (A → A) → A → A
wrap [] router = router
wrap (f ∷ filters) router = f (wrap filters router)

apply_all-reverse_onto :
    {A : Type 0} (done filters : List (A → A)) (router : A)
    → apply_all (reverse_onto done filters) router ≡ apply_all done (wrap filters router)
unfolding reverse_onto
apply_all-reverse_onto done [] router = refl
apply_all-reverse_onto done (f ∷ filters) router = apply_all-reverse_onto (f ∷ done) filters router

-- The loop over the reversed filters leaves the first filter outermost.
apply_reversed-wrap :
    {A : Type 0} (filters : List (A → A)) (router : A)
    → apply_reversed filters router ≡ wrap filters router
unfolding apply_reversed
apply_reversed-wrap filters router = apply_all-reverse_onto [] filters router

rejects-none :
    (is_uuid : String → Bool) (ps : List (String × String)) → rejects is_uuid [] ps ≡ false
rejects-none is_uuid [] = refl
rejects-none is_uuid (p ∷ ps) = rejects-none is_uuid ps

rejects_params-none :
    (is_uuid : String → Bool) (ps : Option (List (String × String)))
    → rejects_params is_uuid [] ps ≡ false
rejects_params-none is_uuid none = refl
rejects_params-none is_uuid (some ps) = rejects-none is_uuid ps

-- The answer of a stage, or what follows it.
abbrev pub stage : {S R : Type 0} → Option R → S → R × S → R × S
stage none s rest = rest
stage (some answer) s rest = (answer, s)

-- What the group's limiter says, and the state with the request counted.
abbrev pub counted : {S Q R : Type 0} → Option (Q → S → Option R × S) → Q → S → Option R × S
counted none q s = (none, s)
counted (some limiter) q s = limiter q s

-- The answer by which authorization stops a request.
abbrev pub refused :
    {Q R : Type 0} → (List String → Q → Option R) → Bool → List String → Q → Option R
refused refusal false policies q = none
refused refusal true policies q = refusal policies q

-- The answer to a parameter that its constraint rejects.
abbrev pub rejected :
    {Q R : Type 0}
    → (String → Bool)
    → (Q → Option (List (String × String)))
    → R
    → List (String × Constraint)
    → Q
    → Option R
rejected is_uuid params not_found constraints q =
    if rejects_params is_uuid constraints (params q) then some not_found else none

module _ {S Q R : Type 0} where
  guarded-stage :
      (guard : Q → S → Option R × S) (next : Service S Q R) (q : Q) (s : S)
      → guarded guard next q s ≡ stage (guard q s).0 (guard q s).1 (next q (guard q s).1)
  guarded-stage guard next q s = elim (Option-cases (guard q s).0) [
    | inl e ↦ rw (e, guarded) refl
    | inr (answer, e) ↦ rw (e, guarded) refl
  ]

  limit-stage :
      (limiter : Option (Q → S → Option R × S)) (next : Service S Q R) (q : Q) (s : S)
      → limit limiter next q s
        ≡ stage (counted limiter q s).0 (counted limiter q s).1 (next q (counted limiter q s).1)
  limit-stage none next q s = refl
  limit-stage (some limiter) next q s = guarded-stage limiter next q s

  module _ (refusal : List String → Q → Option R) where
    authorize_first-stage :
        (required : Bool) (policies : List String) (next : Service S Q R) (q : Q) (s : S)
        → authorize_first refusal required policies next q s
          ≡ stage (refused refusal required policies q) s (next q s)
    authorize_first-stage false policies next q s = refl
    authorize_first-stage true policies next q s =
        guarded-stage (λ q s. (refusal policies q, s)) next q s

  module _ (is_uuid : String → Bool) (params : Q → Option (List (String × String)))
      (not_found : R) where
    constrain-stage :
        (constraints : List (String × Constraint)) (next : Service S Q R) (q : Q) (s : S)
        → constrain is_uuid params not_found constraints next q s
          ≡ stage (rejected is_uuid params not_found constraints q) s (next q s)
    unfolding enforce_constraints
    constrain-stage [] next q s = rw (rejects_params-none is_uuid (params q)) refl
    constrain-stage (c ∷ constraints) next q s =
        guarded-stage (enforce_constraints is_uuid params not_found (c ∷ constraints)) next q s

    module _ (refusal : List String → Q → Option R) where
      -- A request's way in: the route's constraints, the group's limiter, authorization, the group's
      -- filters, the endpoint's, each in the order in which they were added, and the handler.
      abbrev pub served : RouteGroup S Q R → Pending S Q R → Service S Q R
      served group pending q s =
          let conventions = pending.conventions in
          let (full, after) = counted group.rate_limiter q s in
          let filtered = wrap group.filters (wrap conventions.filters pending.router) in
          stage (rejected is_uuid params not_found (parse_route pending.path).1 q) s (
            stage full after (
              stage (refused refusal conventions.requires_authorization conventions.policies q)
                after (filtered q after)))

      -- A route answers a request by the first stage that stops it, and no later one runs: a value
      -- that a constraint rejects costs no permit, a request over the limit is not authorized, one
      -- that is refused reaches no filter and no handler.
      pub route_of-served :
          (group : RouteGroup S Q R) (pending : Pending S Q R) (q : Q) (s : S)
          → route_of is_uuid refusal params not_found group pending q s ≡ served group pending q s
      unfolding route_of
      route_of-served group pending q s =
          let conventions = pending.conventions in
          let constraints = (parse_route pending.path).1 in
          let limiter = group.rate_limiter in
          let full = (counted limiter q s).0 in
          let after = (counted limiter q s).1 in
          let required = conventions.requires_authorization in
          let loops =
            apply_reversed group.filters (apply_reversed conventions.filters pending.router) in
          let authorized = authorize_first refusal required conventions.policies loops in
          let filters =
            apply_reversed-wrap group.filters (apply_reversed conventions.filters pending.router)
            ∙ ap (wrap group.filters) (apply_reversed-wrap conventions.filters pending.router) in
          let stop = refused refusal required conventions.policies q in
          constrain-stage constraints (limit limiter authorized) q s
          ∙ ap (stage (rejected is_uuid params not_found constraints q) s) (
              limit-stage limiter authorized q s
              ∙ ap (stage full after) (
                  authorize_first-stage refusal required conventions.policies loops q after
                  ∙ ap (λ (f : Service S Q R). stage stop after (f q after)) filters))
