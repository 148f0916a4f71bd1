-- ===== src/Guards/Access.antt =====
-- The guards of src/middleware/tenantAccess.js and src/middleware/subscriptionAccess.js, and
-- `authenticate` of src/middleware/auth.js, which runs them in this order. A verdict is the call of
-- `next`, the status and code of the answer, or a promise that is rejected. The verification of a
-- token (jsonwebtoken) is a parameter.
use text.Mathlib.Text.{starts_with}
use be_weavecarbon.Common.{
  ℕ, String, Bool, true, false, not, ◌&&◌, Option, none, some, List, [], ◌∷◌, ◌==◌, str_eq,
  if◌then◌else◌, is_some, any, select_one,
}
use be_weavecarbon.Members.Team.{CompanyRole, User, Team, admin, member, viewer, has_id}
use be_weavecarbon.Mfa.Factors.{Store, get_challenge_state}
use be_weavecarbon.Subscriptions.Plans.{Account, Snapshot, get_subscription_snapshot, is_trial}
use be_weavecarbon.Guards.Request.{
  Request, Claims, CompanyContext, get_bearer_token, has_any_role, resolve_company_context,
}

pub data Permission : Type 0 where
  read : Permission
  write : Permission
  manage : Permission
  billing : Permission

-- `hasCompanyPermission` by COMPANY_ROLE_PERMISSIONS
abbrev pub has_company_permission : CompanyRole → Permission → Bool
has_company_permission admin p = true
has_company_permission member read = true
has_company_permission member write = true
has_company_permission member _ = false
has_company_permission viewer read = true
has_company_permission viewer _ = false

abbrev pub is_mutation : Request → Bool
is_mutation r = any (str_eq r.method) ("POST" ∷ "PUT" ∷ "PATCH" ∷ "DELETE" ∷ [])

abbrev pub has_prefix : List String → Request → Bool
has_prefix prefixes r = any (starts_with r.path) prefixes

-- TENANT_RESOURCE_PREFIXES
abbrev pub tenant_prefixes : List String
tenant_prefixes =
    "/api/products" ∷ "/api/product-batches" ∷ "/api/logistics" ∷ "/api/reports"
    ∷ "/api/company/members" ∷ "/api/account/company" ∷ "/api/export" ∷ "/api/evidence"
    ∷ "/api/carbon-calculations" ∷ "/api/electricity-invoices" ∷ "/api/fuel-invoices"
    ∷ "/api/corporate-ghg-inventories" ∷ "/api/eu-textile-epr" ∷ "/api/suppliers" ∷ "/api/data-gaps"
    ∷ "/api/audit-trail" ∷ "/api/chat" ∷ []

-- PLAN_LOCK_PROTECTED_PREFIXES
abbrev pub protected_prefixes : List String
protected_prefixes =
    "/api/products" ∷ "/api/product-batches" ∷ "/api/logistics" ∷ "/api/reports"
    ∷ "/api/company/members" ∷ "/api/account/company" ∷ []

-- TRIAL_PLAN_RESTRICTED_PREFIXES
abbrev pub trial_prefixes : List String
trial_prefixes = "/api/reports" ∷ []

-- What `assignRequestUserContext` puts on the request.
pub record Passport : Type 0 where
  pub user : User
  pub company : Option CompanyContext

pub data Verdict : Type 0 where
  passed : Passport → Verdict
  refused : ℕ → String → Verdict
  rejected : Verdict

-- `isTenantResourceRequest`
unfoldable pub is_tenant_resource : Request → Bool
is_tenant_resource r = has_prefix tenant_prefixes r

abbrev pub may : Option CompanyContext → Permission → Bool
may none p = false
may (some c) p = has_company_permission c.company_role p

-- `requireCompanyPermission`
unfoldable pub require_company_permission : Permission → Passport → Verdict
require_company_permission p passport =
    if not (may passport.company p) then refused 403 "TENANT_PERMISSION_DENIED" else passed passport

-- The test of `enforceTenantMutationAccess`
unfoldable pub is_denied_mutation : Request → Option CompanyContext → Bool
is_denied_mutation r company =
    is_mutation r && (is_tenant_resource r && (is_some company && not (may company write)))

abbrev pub is_b2b_company : Passport → Bool
is_b2b_company p = is_some p.company && has_any_role p.user.roles ("b2b" ∷ [])

-- `shouldCheckPlanLock`
unfoldable pub checks_plan_lock : Request → Passport → Bool
checks_plan_lock r p = is_b2b_company p && (is_mutation r && has_prefix protected_prefixes r)

-- `shouldCheckTrialPlanRestriction`
unfoldable pub checks_trial : Request → Passport → Bool
checks_trial r p = is_b2b_company p && has_prefix trial_prefixes r

-- The tables that a request is judged on.
pub record World : Type 0 where
  pub team : Team
  pub factors : Store
  pub accounts : ℕ → Option Account

abbrev pub put_account : ℕ → Account → World → World
put_account company a w = record w {
  accounts = λ c. let others = w.accounts c in if c == company then some a else others;
}

-- What `enforceSubscriptionAccess` answers on a snapshot.
abbrev pub on_snapshot : Request → Passport → Snapshot → Verdict
on_snapshot r p s =
    if checks_trial r p && is_trial s.current_plan
    then refused 403 "PLAN_RESTRICTED"
    else if s.features_locked
    then refused 403 "PLAN_LOCKED"
    else passed p

abbrev pub company_of : Passport → ℕ
company_of p = elim p.company [ none ↦ 0 | some c ↦ c.company_id ]

abbrev pub judge_plan : ℕ → Request → Passport → World → Option Account → World × Verdict
judge_plan now r p w none = (w, rejected)
judge_plan now r p w (some a) =
    let taken = get_subscription_snapshot now a in
    (put_account (company_of p) taken.0 w, on_snapshot r p taken.1)

-- `enforceSubscriptionAccess`. A company that is not found rejects its promise, and `authenticate`
-- returns that promise without awaiting it, so that its `catch` does not see the error.
unfoldable pub enforce_subscription_access : ℕ → Request → Passport → World → World × Verdict
enforce_subscription_access now r p w =
    let judged = judge_plan now r p w (w.accounts (company_of p)) in
    if not (checks_plan_lock r p) && not (checks_trial r p) then (w, passed p) else judged

-- `enforceTenantMutationAccess`, before the guard of the subscription.
unfoldable pub enforce_tenant_mutation_access : ℕ → Request → Passport → World → World × Verdict
enforce_tenant_mutation_access now r p w =
    let further = enforce_subscription_access now r p w in
    if is_denied_mutation r p.company then (w, refused 403 "TENANT_PERMISSION_DENIED") else further

-- `authenticate`
abbrev pub authenticate_user : ℕ → Request → Claims → World → Option User → World × Verdict
authenticate_user now r claims w none = (w, refused 401 "USER_NOT_FOUND")
authenticate_user now r claims w (some user) =
    let p : Passport = record {
      user = user;
      company = resolve_company_context user claims.company_id w.team;
    } in
    let further = enforce_tenant_mutation_access now r p w in
    if (get_challenge_state claims.sub w.factors).enabled && not claims.mfa_verified
    then (w, refused 401 "MFA_REAUTH_REQUIRED")
    else further

abbrev pub authenticate_claims : ℕ → Request → World → Option Claims → World × Verdict
authenticate_claims now r w none = (w, refused 401 "INVALID_TOKEN")
authenticate_claims now r w (some claims) =
    authenticate_user now r claims w (select_one (has_id claims.sub) w.team.users)

abbrev pub authenticate_token :
    (String → Option Claims) → ℕ → Request → World → Option String → World × Verdict
authenticate_token verify now r w none = (w, refused 401 "UNAUTHORIZED")
authenticate_token verify now r w (some token) =
    let further = authenticate_claims now r w (verify token) in
    if str_eq token "" then (w, refused 401 "UNAUTHORIZED") else further

unfoldable pub authenticate : (String → Option Claims) → ℕ → Request → World → World × Verdict
authenticate verify now r w = authenticate_token verify now r w (get_bearer_token r)
