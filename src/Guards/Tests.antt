-- ===== src/Guards/Tests.antt =====
-- Requests on a small company.
use be_weavecarbon.Common.{String, false, ◌≡◌, refl, Option, none, some, [], ◌∷◌}
use be_weavecarbon.Members.Team.{Member, User, Team, member, viewer, active}
use be_weavecarbon.Mfa.Factors.{get_challenge_state, active as active_factor, latest, newest}
use be_weavecarbon.Subscriptions.Plans.{
  Account, export_plan, normalize_plan_id, is_standard_plan, cycle_of, get_subscription_snapshot,
}
use be_weavecarbon.Guards.Request.{
  Request, Claims, CompanyContext, get_bearer_token, resolve_company_context, company_membership,
}
use be_weavecarbon.Guards.Access.{
  Passport, passed, refused, World, is_tenant_resource, is_denied_mutation, checks_plan_lock,
  checks_trial, enforce_subscription_access, enforce_tenant_mutation_access, authenticate,
}
use be_weavecarbon.Guards.Routes.{
  require_role, goes_on, stopped, require_company_admin, require_company_member, optional_auth,
}
use be_weavecarbon.Guards.Agreed.{authenticate-agrees}
use be_weavecarbon.Guards.Membership.{IsPlaced, authenticate-IsPlaced}

abbrev verify : String → Option Claims
verify token = some (record { sub = 12; company_id = some 5; mfa_verified = false })

abbrev user : User
user = record { id = 12; email = "h@a"; full_name = "H"; roles = "b2b" ∷ [] }

abbrev seat : Member
seat = record {
  id = 2;
  company_id = 5;
  user_id = 12;
  role = member;
  status = active;
  invited_by = none;
  created_at = 0;
  updated_at = 0;
}

abbrev team : Team
team = record {
  companies = (record { id = 5; name = "A" }) ∷ [];
  users = user ∷ [];
  profiles = [];
  members = seat ∷ [];
}

abbrev reading_team : Team
reading_team = record team { members = (record seat { role = viewer }) ∷ [] }

abbrev account : Account
account = record { current_plan = export_plan; created_at = 0; cycle = none }

abbrev world : World
world = record {
  team = team;
  factors = record { factors = []; consumptions = [] };
  accounts = λ c. some account;
}

abbrev post : Request
post = record {
  method = "POST";
  path = "/api/products/1";
  authorization = some "Bearer t";
  query_token = none;
}

abbrev place : CompanyContext
place = record { company_id = 5; company_role = member; status = active }

abbrev passport : Passport
passport = record { user = user; company = some place }

passes : (authenticate verify 9 post world).1 ≡ passed passport
unfolding authenticate get_bearer_token get_challenge_state active_factor latest newest
    resolve_company_context company_membership enforce_tenant_mutation_access is_denied_mutation
    is_tenant_resource enforce_subscription_access checks_plan_lock checks_trial
    get_subscription_snapshot normalize_plan_id is_standard_plan cycle_of
passes = refl

-- A viewer may not write.
viewer_refused :
    (authenticate verify 9 post (record world { team = reading_team })).1
    ≡ refused 403 "TENANT_PERMISSION_DENIED"
unfolding authenticate get_bearer_token get_challenge_state active_factor latest newest
    resolve_company_context company_membership enforce_tenant_mutation_access is_denied_mutation
    is_tenant_resource
viewer_refused = refl

authenticate-IsPlaced_example : IsPlaced 12 team place
authenticate-IsPlaced_example = authenticate-IsPlaced verify 9 post world passport place passes refl

authenticate-agrees_example :
    (require_company_member team (some passport) ≡ passed passport)
    × (require_company_admin team (some passport) ≡ refused 403 "FORBIDDEN")
authenticate-agrees_example =
    authenticate-agrees verify 9 post world passport place (tt, tt) passes refl

stops_strangers :
    (require_company_member team none ≡ refused 401 "UNAUTHORIZED")
    × (require_role ("admin" ∷ []) (some passport) ≡ stopped 403 "FORBIDDEN")
    × (require_role ("b2b" ∷ []) (some passport) ≡ goes_on (some passport))
unfolding require_company_member require_role
stops_strangers = (refl, refl, refl)

finds_user : optional_auth verify post team ≡ some passport
unfolding optional_auth get_bearer_token resolve_company_context company_membership
finds_user = refl
