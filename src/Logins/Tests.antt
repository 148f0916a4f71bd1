-- ===== src/Logins/Tests.antt =====
-- Sessions on small tables.
use Prim.Native.String.{◌++◌}
use mathlib.Core.List.{Memᴰ}
use be_weavecarbon.Common.{true, false, arith, ◌≡◌, ◌≢◌, refl, none, some, [], ◌∷◌, str_eq}
use be_weavecarbon.Members.Team.{Member, User, Company, Team, member, disabled, find_company}
use be_weavecarbon.Mfa.Factors.{get_challenge_state, latest, newest, active as active_factor}
use be_weavecarbon.Sessions.Tokens.{
  Token, Metadata, insert, rotate, find_rotatable_by_hash, revoke_by_id,
}
use be_weavecarbon.Guards.Request.{primary_membership, company_membership}
use be_weavecarbon.Logins.Context.{Login, resolve_session}
use be_weavecarbon.Logins.Flow.{
  Crypto, State, Grant, authenticated, refused, sign_in, issue_refresh_session, sign_out,
}
use be_weavecarbon.Logins.Access.{shown, expired, issue_access_session}
use be_weavecarbon.Sessions.Invariant.{IsIntact, Reach}
use be_weavecarbon.Logins.SignOut.{sign_out-ends_sessions}
use be_weavecarbon.Logins.Renewed.{IsRefreshed, issue_refresh_session-IsRefreshed}

abbrev crypto : Crypto
crypto = record {
  unseal = λ s user. "";
  code_at = λ secret counter. secret;
  digest = λ code salt. code ++ salt;
  is_code = λ code. true;
  is_password = λ user password. true;
  hash_token = λ token. "h" ++ token;
  decode_expiry = λ token. some 9000;
  verify_password = λ password hash. str_eq password hash;
  generate_refresh_token = λ user remember verified. "new";
  verify_refresh_token = λ token.
      some (record { sub = 12; is_refresh = true; remember_me = true; mfa_verified = false });
  verify_access_token = λ token. some (record { sub = 12; is_access = true; mfa_verified = false });
}

abbrev user : User
user = record { id = 12; email = "h@a"; full_name = "H"; roles = "b2b" ∷ [] }

abbrev login : Login
login = record {
  user = user;
  password_hash = some "pw";
  email_verified = true;
  is_demo_user = false;
  company_id = some 5;
}

abbrev company : Company
company = record { id = 5; name = "A" }

abbrev seat : Member
seat = record {
  id = 2;
  company_id = 5;
  user_id = 12;
  role = member;
  status = disabled;
  invited_by = none;
  created_at = 0;
  updated_at = 0;
}

abbrev team : Team
team = record { companies = company ∷ []; users = user ∷ []; profiles = []; members = seat ∷ [] }

abbrev old_token : Token
old_token = record {
  id = 1;
  user_id = 12;
  token_hash = "hold";
  expires_at = 9000;
  is_revoked = false;
  revoked_at = none;
  ip_address = none;
  user_agent = none;
  created_at = 0;
}

abbrev state : State
state = record {
  logins = login ∷ [];
  team = team;
  factors = record { factors = []; consumptions = [] };
  tokens = old_token ∷ [];
}

abbrev meta : Metadata
meta = record { ip_address = none; user_agent = none }

abbrev grant : Grant
grant = record {
  login = login;
  context = resolve_session login team;
  mfa_verified = false;
  remember_me = true;
  refresh_token = some "new";
}

no_primary : primary_membership 12 team ≡ none
unfolding primary_membership
no_primary = refl

finds_company : find_company 5 team ≡ some company
unfolding find_company
finds_company = refl

finds_seat : company_membership 5 12 team ≡ some seat
unfolding company_membership
finds_seat = refl

wrong_password :
    (sign_in crypto 7 9 "h@a" "no" none true meta state).1 ≡ refused 401 "INVALID_CREDENTIALS"
unfolding sign_in
wrong_password = refl

refreshes : (issue_refresh_session crypto 7 30 9 "old" true meta state).1 ≡ authenticated grant
unfolding issue_refresh_session rotate insert find_rotatable_by_hash revoke_by_id
    get_challenge_state latest newest active_factor
refreshes = refl

issue_refresh_session-IsRefreshed_example : IsRefreshed crypto 7 30 9 "old" true meta state grant
issue_refresh_session-IsRefreshed_example =
    issue_refresh_session-IsRefreshed crypto 7 30 9 "old" true meta state grant refreshes

state-IsIntact : IsIntact state.tokens
state-IsIntact = record { consistent = (refl, tt); ids = (tt, tt); hashes = (tt, tt) }

sign_out-ends_sessions_example :
    (issue_refresh_session crypto 40000 30 9 "old" true meta
      (sign_out crypto 7 true none (some "a") state).0).1
    ≢ authenticated grant
sign_out-ends_sessions_example =
    sign_out-ends_sessions crypto 7 none (some "a") state 40000 30 9 12 "old" meta old_token
      (sign_out crypto 7 true none (some "a") state).0 grant refl state-IsIntact (Memᴰ.head refl)
      refl refl refl (omega arith) Reach.here

shows_session : issue_access_session crypto "a" state ≡ shown login (resolve_session login team)
unfolding issue_access_session get_challenge_state latest newest active_factor
shows_session = refl

shows_nobody :
    issue_access_session crypto "a" (record state { logins = [] })
    ≡ expired "SESSION_USER_NOT_FOUND" true
unfolding issue_access_session
shows_nobody = refl
