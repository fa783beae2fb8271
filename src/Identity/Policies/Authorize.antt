-- ===== src/Identity/Policies/Authorize.antt =====
-- Whom `authorize` (crates/shared-kernel/src/auth.rs) lets through with the policies of
-- crates/module-identity/src/policies.rs.
use rust_api_modular_monolit.Base.{
  ◌≡◌, ◌≢◌, ◌↔◌, ◌⊎◌, inl, inr, refl, sym, ap, subst, ◌∙◌, String, Bool, true, false, ◌||◌, List,
  [], ◌∷◌, Option, none, some, arith, ◌==◌, eq_string, if◌then◌else◌, contains, All, Bool-cases,
  beq_comm, not, filter_some, map_option, if_true, if_false,
}
use rust_api_modular_monolit.Base.Text.{trim, is_empty}
use rust_api_modular_monolit.Identity.Claims.{AuthenticatedUser, has_permission, has_role}
use rust_api_modular_monolit.Identity.Policies.{
  permissions, policies, admin, tenant_scoped, admin_role, Principal, tenant_scope_satisfied,
  PolicyDecision, allowed, denied, unknown, is_registered, decide, evaluate_as, evaluate_user,
  evaluate, next, forbidden, internal, check_policies, authorize_as, authorize, Holds, InScope,
  within, matches, user_in_scope,
}

some_injective : {A : Type 0} {a b : A} → some a ≡ some b → a ≡ b
some_injective h = cc

none-some : {A : Type 0} {a : A} → none ≢ some a
none-some h = cc

or_false : {a b : Bool} → a ≡ false → (a || b) ≡ true → b ≡ true
or_false e h = rw e at h

matches-InScope :
    (tenant : String) (requested : Option String)
    → (matches tenant requested ≡ true) ↔ ((requested ≡ none) ⊎ (requested ≡ some tenant))
matches-InScope tenant none = (λ h. inl refl, λ h. refl)
matches-InScope tenant (some requested) = (
  λ h. inr (ap (λ t. some t) (sym ((eq_string.equals_iff tenant requested).0 h))),
  λ h. elim h [
    | inl unnamed ↦ absurd (none-some (sym unnamed))
    | inr same ↦ (eq_string.equals_iff tenant requested).1 (sym (some_injective same))
  ],
)

within-InScope :
    (claim : Option String) (requested : Option String)
    → (within (filter_some (λ v. not (is_empty v)) claim) requested ≡ true) ↔ (
        (tenant : String) × (claim ≡ some tenant)
        × (is_empty tenant ≡ false)
        × ((requested ≡ none) ⊎ (requested ≡ some tenant)))
within-InScope none requested = (λ h. cc, λ h. absurd (none-some h.1))
within-InScope (some tenant) requested = elim (Bool-cases (is_empty tenant)) [
  | inl blank ↦ rw blank (
    λ h. cc,
    λ h.
        let same : tenant ≡ h.0 = some_injective h.1 in
        let no : true ≡ false = sym blank ∙ ap is_empty same ∙ h.2 in cc,
  )
  | inr full ↦ rw full (
    λ h. (tenant, refl, full, (matches-InScope tenant requested).0 h),
    λ h.
        (matches-InScope tenant requested).1
          (subst (λ t. (requested ≡ none) ⊎ (requested ≡ some t)) (sym (some_injective h.1)) h.3),
  )
]

tenant_scope_satisfied-InScope :
    (p : Principal) (user : AuthenticatedUser)
    → p.user ≡ some user
    → (tenant_scope_satisfied p ≡ true) ↔ InScope user p
unfolding tenant_scope_satisfied
tenant_scope_satisfied-InScope p user there =
    let same = ap (λ u. user_in_scope u p.request_tenant) there in
    let whole = within-InScope (map_option trim user.tenant) p.request_tenant in
    (λ h. whole.0 (sym same ∙ h), λ h. same ∙ whole.1 h)

module _ (p : Principal) (user : AuthenticatedUser) (there : p.user ≡ some user) where
  evaluate_user_sound :
      (policy : String)
      → evaluate_user policy user (tenant_scope_satisfied p) ≡ allowed
      → Holds policy user p
  evaluate_user_sound policy h = elim (Bool-cases (contains permissions policy)) [
    | inl e ↦ inl (e, ground arith)
    | inr e ↦ elim (Bool-cases (policy == admin)) [
      | inl f ↦ inr (inl ((eq_string.equals_iff policy admin).0 f, ground arith))
      | inr f ↦ elim (Bool-cases (policy == tenant_scoped)) [
        | inl g ↦
            let scoped : tenant_scope_satisfied p ≡ true = ground arith in
            inr (
              inr (
                (eq_string.equals_iff policy tenant_scoped).0 g,
                (tenant_scope_satisfied-InScope p user there).0 scoped,
              ))
        | inr g ↦ absurd (ground arith)
      ]
    ]
  ]

  evaluate_user_complete :
      (policy : String)
      → Holds policy user p
      → evaluate_user policy user (tenant_scope_satisfied p) ≡ allowed
  evaluate_user_complete policy (inl (e, f)) = if_true e _ _ ∙ if_true f allowed denied
  evaluate_user_complete policy (inr (inl (e, f))) = rw (e, f) refl
  evaluate_user_complete policy (inr (inr (e, f))) =
      let scoped = (tenant_scope_satisfied-InScope p user there).1 f in rw (e, scoped) refl

  -- The policies that are not a permission.
  other-registered :
      (policy : String)
      → contains policies policy ≡ true
      → (if policy == admin
          then decide (has_role user admin_role)
          else if policy == tenant_scoped
          then decide (tenant_scope_satisfied p)
          else unknown)
        ≢ unknown
  other-registered policy h = ground (arith, beq_comm policy admin, beq_comm policy tenant_scoped)

  decide-known : (answer : Bool) → decide answer ≢ unknown
  decide-known answer = ground arith

  registered-cases :
      (policy : String)
      → is_registered policy ≡ true
      → (contains permissions policy ≡ true)
        ⊎ ((contains permissions policy ≡ false) × (contains policies policy ≡ true))
  unfolding is_registered
  registered-cases policy h = elim (Bool-cases (contains permissions policy)) [
    | inl e ↦ inl e
    | inr e ↦ inr (e, or_false e h)
  ]

  evaluate_user-registered :
      (policy : String)
      → is_registered policy ≡ true
      → evaluate_user policy user (tenant_scope_satisfied p) ≢ unknown
  evaluate_user-registered policy h q = elim (registered-cases policy h) [
    | inl e ↦ decide-known (has_permission user policy) (sym (if_true e _ _) ∙ q)
    | inr (e, f) ↦ other-registered policy f (sym (if_false e _ _) ∙ q)
  ]

evaluate-user :
    (p : Principal) (user : AuthenticatedUser) (policy : String)
    → p.user ≡ some user
    → evaluate policy p ≡ evaluate_user policy user (tenant_scope_satisfied p)
unfolding evaluate
evaluate-user p user policy there = ap (λ u. evaluate_as policy u (tenant_scope_satisfied p)) there

denied-allowed : denied ≢ allowed
denied-allowed h = cc

unknown-allowed : unknown ≢ allowed
unknown-allowed h = cc

PolicyDecision-cases : (d : PolicyDecision) → (d ≡ allowed) ⊎ (d ≡ denied) ⊎ (d ≡ unknown)
PolicyDecision-cases allowed = inl refl
PolicyDecision-cases denied = inr (inl refl)
PolicyDecision-cases unknown = inr (inr refl)

check_policies-next :
    (p : Principal) (user : AuthenticatedUser) (required : List String)
    → p.user ≡ some user
    → (check_policies required p ≡ next) ↔ All (λ policy. Holds policy user p) required
unfolding check_policies
check_policies-next p user [] there = (λ _. tt, λ _. refl)
check_policies-next p user (policy ∷ rest) there =
    let same = evaluate-user p user policy there in
    let others = check_policies-next p user rest there in
    elim (PolicyDecision-cases (evaluate policy p)) [
      | inl e ↦
          rw (e, check_policies)
            (
              λ h. (evaluate_user_sound p user there policy (sym same ∙ e), others.0 h),
              λ h. others.1 h.1,
            )
      | inr (inl e) ↦
          rw (e, check_policies)
            (
              λ h. cc,
              λ h.
                  absurd (
                    denied-allowed (sym e ∙ same ∙ evaluate_user_complete p user there policy h.0)),
            )
      | inr (inr e) ↦
          rw (e, check_policies)
            (
              λ h. cc,
              λ h.
                  absurd (
                    unknown-allowed
                      (sym e ∙ same ∙ evaluate_user_complete p user there policy h.0)),
            )
    ]

authorize_as-next :
    (u : Option AuthenticatedUser) (p : Principal) (required : List String)
    → p.user ≡ u
    → (authorize_as u required p ≡ next) ↔ (
        (user : AuthenticatedUser) × (u ≡ some user) × All (λ policy. Holds policy user p) required)
unfolding authorize_as
authorize_as-next none p required e = (λ h. cc, λ h. cc (h.1))
authorize_as-next (some user) p required e =
    let checked = check_policies-next p user required e in
    (
      λ h. (user, refl, checked.0 h),
      λ h.
          checked.1
            (subst (λ u. All (λ policy. Holds policy u p) required) (sym (some_injective h.1)) h.2),
    )

-- `authorize` lets a request through exactly when its caller is authenticated and holds every
-- policy that the endpoint requires: a permission by the claim of that name, `role.admin` by the
-- role `Admin`, `tenant.scoped` by a tenant claim that is not blank and, without the white space at
-- its ends, is the request's tenant, where the request names one.
pub authorize-next :
    (required : List String) (p : Principal)
    → (authorize required p ≡ next) ↔ (
        (user : AuthenticatedUser) × (p.user ≡ some user)
        × All (λ policy. Holds policy user p) required)
unfolding authorize
authorize-next required p = authorize_as-next p.user p required refl

check_policies-registered :
    (p : Principal) (user : AuthenticatedUser) (required : List String)
    → p.user ≡ some user
    → All (λ policy. is_registered policy ≡ true) required
    → check_policies required p ≢ internal
unfolding check_policies
check_policies-registered p user [] there registered h = cc
check_policies-registered p user (policy ∷ rest) there registered h =
    let same = evaluate-user p user policy there in
    elim (PolicyDecision-cases (evaluate policy p)) [
      | inl e ↦
          check_policies-registered p user rest there registered.1 (rw (e, check_policies) at h)
      | inr (inl e) ↦ let no : forbidden ≡ internal = rw (e, check_policies) at h in cc
      | inr (inr e) ↦ evaluate_user-registered p user there policy registered.0 (sym same ∙ e)
    ]

authorize_as-registered :
    (u : Option AuthenticatedUser) (p : Principal) (required : List String)
    → p.user ≡ u
    → All (λ policy. is_registered policy ≡ true) required
    → authorize_as u required p ≢ internal
unfolding authorize_as
authorize_as-registered none p required e registered h = cc
authorize_as-registered (some user) p required e registered h =
    check_policies-registered p user required e registered h

-- Where every required policy is registered, no caller is answered 500 by `authorize`.
authorize-registered :
    (required : List String) (p : Principal)
    → All (λ policy. is_registered policy ≡ true) required
    → authorize required p ≢ internal
unfolding authorize
authorize-registered required p registered =
    authorize_as-registered p.user p required refl registered
