-- ===== src/Guards/Request.antt =====
-- A request and the company that it acts for: the context that src/middleware/auth.js derives from
-- the token, on the tables of members. The membership queries are those of
-- src/modules/auth/verificationRepository.js and src/modules/auth/userRepository.js.
use Prim.Native.String.{slice, len}
use text.Mathlib.Text.{starts_with}
use be_weavecarbon.Common.{
  ℕ, String, Bool, not, ◌&&◌, ◌||◌, Option, none, some, List, [], ◌∷◌, ltb, ◌==◌, str_eq,
  if◌then◌else◌, is_some, any, select_one,
}
use be_weavecarbon.Members.Team.{
  CompanyRole, Member, MemberStatus, User, Team, admin, active, same_role, same_status, is_seat,
  find_company,
}

-- `path` is the lower-cased URL, and the query's token is trimmed.
pub record Request : Type 0 where
  pub method : String
  pub path : String
  pub authorization : Option String
  pub query_token : Option String

-- The claims of an access token.
pub record Claims : Type 0 where
  pub sub : ℕ
  pub company_id : Option ℕ
  pub mfa_verified : Bool

pub record CompanyContext : Type 0 where
  pub company_id : ℕ
  pub company_role : CompanyRole
  pub status : MemberStatus

abbrev pub bearer : Option String → Option String → Option String
bearer none other = other
bearer (some h) other = if starts_with h "Bearer " then some (slice h 7 (len h)) else other

-- `getBearerToken`
unfoldable pub get_bearer_token : Request → Option String
get_bearer_token r = bearer r.authorization r.query_token

-- `hasAnyRole`
abbrev pub has_any_role : List String → List String → Bool
has_any_role roles allowed = any (λ r. any (str_eq r) allowed) roles

-- `ORDER BY` active first, administrators first, the latest first; only active rows are listed.
abbrev pub goes_first : Member → Member → Bool
goes_first m n =
    same_role m.role admin && not (same_role n.role admin)
    || not (same_role n.role admin && not (same_role m.role admin))
      && not (ltb m.created_at n.created_at)

abbrev pub first_of : Member → Option Member → Member
first_of m none = m
first_of m (some n) = if goes_first m n then m else n

abbrev pub is_listed : ℕ → Team → Member → Bool
is_listed user team m =
    m.user_id == user && (same_status m.status active && is_some (find_company m.company_id team))

abbrev pub primary_of : (Member → Bool) → List Member → Option Member
primary_of test [] = none
primary_of test (m ∷ rows) =
    let rest = primary_of test rows in if test m then some (first_of m rest) else rest

-- `getPrimaryCompanyMembership`
unfoldable pub primary_membership : ℕ → Team → Option Member
primary_membership user team = primary_of (is_listed user team) team.members

-- `getCompanyMembership`
unfoldable pub company_membership : ℕ → ℕ → Team → Option Member
company_membership company user team = select_one (is_seat company user) team.members

abbrev pub context_of : Option Member → Option CompanyContext
context_of none = none
context_of (some m) =
    if same_status m.status active
    then some (record { company_id = m.company_id; company_role = m.role; status = m.status })
    else none

-- `resolveCompanyContext`
unfoldable pub resolve_company_context : User → Option ℕ → Team → Option CompanyContext
resolve_company_context user claimed team =
    let selected : Option CompanyContext = elim claimed [
      | some company ↦ context_of (company_membership company user.id team)
      | none ↦ context_of (primary_membership user.id team)
    ] in
    if has_any_role user.roles ("b2b" ∷ "admin" ∷ []) then selected else none
