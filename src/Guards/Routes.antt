-- ===== src/Guards/Routes.antt =====
-- The guards that routes add to `authenticate`, of src/middleware/auth.js. A request that has not
-- been authenticated has no passport.
use be_weavecarbon.Common.{
  ℕ, String, Bool, not, Option, none, some, List, [], ◌∷◌, str_eq, if◌then◌else◌, select_one,
}
use be_weavecarbon.Members.Team.{Team, has_id}
use be_weavecarbon.Members.Changes.{is_company_admin, is_company_member}
use be_weavecarbon.Guards.Request.{
  Request, Claims, CompanyContext, get_bearer_token, has_any_role, resolve_company_context,
}
use be_weavecarbon.Guards.Access.{Passport, Verdict, passed, refused}

abbrev pub roles_of : Option Passport → List String
roles_of none = []
roles_of (some p) = p.user.roles

-- What the guard of roles lets pass goes on as it came.
pub data RoleVerdict : Type 0 where
  goes_on : Option Passport → RoleVerdict
  stopped : ℕ → String → RoleVerdict

unfoldable pub require_role : List String → Option Passport → RoleVerdict
require_role roles p =
    if not (has_any_role (roles_of p) roles) then stopped 403 "FORBIDDEN" else goes_on p

unfoldable pub require_platform_admin : Option Passport → RoleVerdict
require_platform_admin p = require_role ("admin" ∷ []) p

-- `createCompanyAccessGuard` by the company of the request.
abbrev pub check_company : (ℕ → ℕ → Team → Bool) → Team → Passport → Option CompanyContext → Verdict
check_company checker team p none = refused 404 "COMPANY_NOT_FOUND"
check_company checker team p (some c) =
    if not (checker p.user.id c.company_id team) then refused 403 "FORBIDDEN" else passed p

abbrev pub company_access_guard : (ℕ → ℕ → Team → Bool) → Team → Option Passport → Verdict
company_access_guard checker team none = refused 401 "UNAUTHORIZED"
company_access_guard checker team (some p) = check_company checker team p p.company

unfoldable pub require_company_admin : Team → Option Passport → Verdict
require_company_admin team p = company_access_guard is_company_admin team p

unfoldable pub require_company_member : Team → Option Passport → Verdict
require_company_member team p = company_access_guard is_company_member team p

unfoldable pub require_company_root : Team → Option Passport → Verdict
require_company_root team p = company_access_guard is_company_admin team p

-- `hydrateRequestUser`
abbrev pub hydrate_request_user : Claims → Team → Option Passport
hydrate_request_user claims team = elim (select_one (has_id claims.sub) team.users) [
  | none ↦ none
  | some user ↦
      some (record { user = user; company = resolve_company_context user claims.company_id team })
]

abbrev pub hydrate_token : (String → Option Claims) → String → Team → Option Passport
hydrate_token verify token team = elim (verify token) [
  | none ↦ none
  | some claims ↦ hydrate_request_user claims team
]

-- `optionalAuth`: it always goes on, and asks for no second factor.
unfoldable pub optional_auth : (String → Option Claims) → Request → Team → Option Passport
optional_auth verify r team = elim (get_bearer_token r) [
  | none ↦ none
  | some token ↦
      let found = hydrate_token verify token team in if str_eq token "" then none else found
]
