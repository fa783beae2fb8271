-- ===== src/Identity/Policies.antt =====
-- crates/module-identity/src/policies.rs, the names of crates/identity-contracts/src/lib.rs, and
-- `Principal`, `authorize` and `deduplicate` of crates/shared-kernel/src/auth.rs.
pub mod Authorize
pub mod Dedup
use rust_api_modular_monolit.Base.{
  ℕ, ◌≡◌, ◌≢◌, ◌↔◌, ◌⊎◌, inl, inr, refl, String, Bool, true, false, not, ◌&&◌, ◌||◌, List, [], ◌∷◌,
  Option, none, some, arith, ◌==◌, eq_string, if◌then◌else◌, contains, map_option, filter_some, All,
  Bool-cases, Option-cases, beq_self,
}
use rust_api_modular_monolit.Base.Text.{trim, is_empty}
use rust_api_modular_monolit.Identity.Claims.{AuthenticatedUser, has_permission, has_role}

-- `permissions::ALL`
abbrev pub permissions : List String
permissions =
    "catalog.read" ∷ "catalog.write" ∷ "orders.read" ∷ "orders.write" ∷ "admin.users.manage"
    ∷ "administration.read" ∷ "administration.write" ∷ "report.view" ∷ []

-- `policies::ALL`, `policies::ADMIN`, `policies::TENANT_SCOPED` and `ADMIN_ROLE`
abbrev pub admin : String
admin = "role.admin"

abbrev pub tenant_scoped : String
tenant_scoped = "tenant.scoped"

abbrev pub policies : List String
policies = admin ∷ tenant_scoped ∷ []

abbrev pub admin_role : String
admin_role = "Admin"

-- `Principal`
pub record Principal : Type 0 where
  pub user : Option AuthenticatedUser
  pub request_tenant : Option String

abbrev pub non_blank : Option String → Option String
non_blank value = filter_some (λ v. not (is_empty v)) (map_option trim value)

-- `from_parts`: the authenticated user and the text of the header, if it is one.
unfoldable pub from_parts : Option AuthenticatedUser → Option String → Principal
from_parts user header = record { user = user; request_tenant = non_blank header }

abbrev pub matches : String → Option String → Bool
matches tenant none = true
matches tenant (some requested) = tenant == requested

abbrev pub within : Option String → Option String → Bool
within none requested = false
within (some tenant) requested = matches tenant requested

-- `tenant_scope_satisfied` of a user.
abbrev pub user_in_scope : Option AuthenticatedUser → Option String → Bool
user_in_scope none requested = false
user_in_scope (some user) requested = within (non_blank user.tenant) requested

-- `tenant_scope_satisfied`
unfoldable pub tenant_scope_satisfied : Principal → Bool
tenant_scope_satisfied p = user_in_scope p.user p.request_tenant

-- `PolicyDecision`
pub data PolicyDecision : Type 0 where
  allowed : PolicyDecision
  denied : PolicyDecision
  unknown : PolicyDecision

-- `is_registered`
unfoldable pub is_registered : String → Bool
is_registered policy = contains permissions policy || contains policies policy

abbrev pub decide : Bool → PolicyDecision
decide answer = if answer then allowed else denied

abbrev pub evaluate_user : String → AuthenticatedUser → Bool → PolicyDecision
evaluate_user policy user in_scope =
    if contains permissions policy
    then decide (has_permission user policy)
    else if policy == admin
    then decide (has_role user admin_role)
    else if policy == tenant_scoped
    then decide in_scope
    else unknown

abbrev pub evaluate_as : String → Option AuthenticatedUser → Bool → PolicyDecision
evaluate_as policy none in_scope = denied
evaluate_as policy (some user) in_scope = evaluate_user policy user in_scope

-- `evaluate`
unfoldable pub evaluate : String → Principal → PolicyDecision
evaluate policy p = evaluate_as policy p.user (tenant_scope_satisfied p)

-- What `authorize` does with a request.
pub data Outcome : Type 0 where
  next : Outcome
  unauthenticated : Outcome
  forbidden : Outcome
  internal : Outcome

-- The loop of `authorize`.
unfoldable pub check_policies : List String → Principal → Outcome
check_policies [] p = next
check_policies (policy ∷ rest) p =
    let others = check_policies rest p in
    elim (evaluate policy p) [ allowed ↦ others | denied ↦ forbidden | unknown ↦ internal ]

unfoldable pub authorize_as : Option AuthenticatedUser → List String → Principal → Outcome
unfolding check_policies
authorize_as none required p = unauthenticated
authorize_as (some user) required p = check_policies required p

-- `authorize`
unfoldable pub authorize : List String → Principal → Outcome
unfolding authorize_as
authorize required p = authorize_as p.user required p

-- The user has a tenant that is not blank, and the request names none or that one.
abbrev pub InScope : AuthenticatedUser → Principal → Type 0
InScope user p =
    (tenant : String) × (map_option trim user.tenant ≡ some tenant)
    × (is_empty tenant ≡ false)
    × ((p.request_tenant ≡ none) ⊎ (p.request_tenant ≡ some tenant))

-- What the names of the contracts promise of a caller.
abbrev pub Holds : String → AuthenticatedUser → Principal → Type 0
Holds policy user p =
    ((contains permissions policy ≡ true) × (contains user.permissions policy ≡ true))
    ⊎ ((policy ≡ admin) × (contains user.roles admin_role ≡ true))
    ⊎ ((policy ≡ tenant_scoped) × InScope user p)

-- `deduplicate`, with what has been seen.
unfoldable pub deduplicate_from : List String → List String → List String
deduplicate_from seen [] = []
deduplicate_from seen (value ∷ values) =
    if contains seen value
    then deduplicate_from seen values
    else value ∷ deduplicate_from (value ∷ seen) values

-- `deduplicate`
unfoldable pub deduplicate : List String → List String
unfolding deduplicate_from
deduplicate values = deduplicate_from [] values
