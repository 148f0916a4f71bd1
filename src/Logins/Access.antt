-- ===== src/Logins/Access.antt =====
-- `issueAccessSession` of src/modules/auth/authSessionService.js, without the time of the login.
use be_weavecarbon.Common.{
  String, Bool, true, false, not, ◌&&◌, none, some, if◌then◌else◌, select_one,
}
use be_weavecarbon.Mfa.Factors.{get_challenge_state}
use be_weavecarbon.Logins.Context.{Login, SessionContext, resolve_session}
use be_weavecarbon.Logins.Flow.{AccessClaims, Crypto, State, has_number}

-- The session, or the code of the error and whether the cookie is cleared.
pub data AccessResult : Type 0 where
  shown : Login → SessionContext → AccessResult
  expired : String → Bool → AccessResult

abbrev show_user : AccessClaims → Login → State → AccessResult
show_user c l s =
    if (get_challenge_state c.sub s.factors).enabled && not c.mfa_verified
    then expired "MFA_REAUTH_REQUIRED" false
    else shown l (resolve_session l s.team)

unfoldable pub issue_access_session : Crypto → String → State → AccessResult
issue_access_session k token s = elim (k.verify_access_token token) [
  | none ↦ expired "INVALID_TOKEN" false
  | some c ↦
      if not c.is_access
      then expired "INVALID_TOKEN" false
      else elim (select_one (has_number c.sub) s.logins) [
        | none ↦ expired "SESSION_USER_NOT_FOUND" true
        | some l ↦ show_user c l s
      ]
]
