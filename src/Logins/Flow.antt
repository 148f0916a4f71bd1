-- ===== src/Logins/Flow.antt =====
-- The operations of src/modules/auth/authSessionService.js on the tables of users, members, factors
-- and refresh tokens. Analytics and the times of the last login are left out. The record Crypto
-- gathers the functions of libraries: those of the second factor, the hash of a refresh token and
-- the expiry in it, the comparison of passwords, and the making and verifying of tokens.
use be_weavecarbon.Common.{
  ℕ, String, Bool, true, false, not, ◌&&◌, Option, none, some, List, ◌==◌, str_eq, if◌then◌else◌,
  select_one,
}
use be_weavecarbon.Members.Team.{Team}
use be_weavecarbon.Mfa.Factors.{Store, get_challenge_state}
use be_weavecarbon.Mfa.Challenges.{verify_challenge}
use be_weavecarbon.Sessions.Tokens.{
  Tokens, Session, Metadata, Answer, ok, expiry_unknown, duplicate_token, store, rotate,
  find_active_by_hash, revoke_by_hash, revoke_all_for_user,
}
use be_weavecarbon.Logins.Context.{Login, SessionContext, resolve_session}

-- The claims of a refresh token.
pub record RefreshClaims : Type 0 where
  pub sub : ℕ
  pub is_refresh : Bool
  pub remember_me : Bool
  pub mfa_verified : Bool

-- The claims of an access token; `is_access` where its type is that or absent.
pub record AccessClaims : Type 0 where
  pub sub : ℕ
  pub is_access : Bool
  pub mfa_verified : Bool

pub record Crypto : Type 0 where
  pub unseal : Option String → ℕ → String
  pub code_at : String → ℕ → String
  pub digest : String → String → String
  pub is_code : String → Bool
  pub is_password : ℕ → String → Bool
  pub hash_token : String → String
  pub decode_expiry : String → Option ℕ
  pub verify_password : String → String → Bool
  pub generate_refresh_token : ℕ → Bool → Bool → String
  pub verify_refresh_token : String → Option RefreshClaims
  pub verify_access_token : String → Option AccessClaims

pub record State : Type 0 where
  pub logins : List Login
  pub team : Team
  pub factors : Store
  pub tokens : Tokens

-- What a session gives to its user.
pub record Grant : Type 0 where
  pub login : Login
  pub context : SessionContext
  pub mfa_verified : Bool
  pub remember_me : Bool
  pub refresh_token : Option String

pub data Result : Type 0 where
  authenticated : Grant → Result
  refused : ℕ → String → Result
  thrown : Result

abbrev pub has_address : String → Login → Bool
has_address email l = str_eq l.user.email email

abbrev pub has_number : ℕ → Login → Bool
has_number i l = l.user.id == i

abbrev pub given : Option String → String
given none = ""
given (some code) = code

module _ (k : Crypto) (now : ℕ) where
  -- `verifyChallenge` of the second factor.
  abbrev pub challenge : ℕ → String → Store → Store × Bool
  challenge user code factors =
      verify_challenge k.unseal k.code_at k.digest k.is_code k.is_password now user code factors

  abbrev pub granted : Grant → State → Tokens × Answer Session → State × Result
  granted g s (tokens, ok session) = (record s { tokens = tokens }, authenticated g)
  granted g s (tokens, expiry_unknown) = (record s { tokens = tokens }, thrown)
  granted g s (tokens, duplicate_token) = (record s { tokens = tokens }, thrown)

  -- The end of `signIn`: the context, the tokens and the stored session.
  abbrev pub open_session : ℕ → Bool → Metadata → Login → Bool → State → State × Result
  open_session fresh remember meta l verified s =
      let token : String = k.generate_refresh_token l.user.id remember verified in
      granted
        (record {
          login = l;
          context = resolve_session l s.team;
          mfa_verified = verified;
          remember_me = remember;
          refresh_token = some token;
        })
        s (store k.hash_token k.decode_expiry now fresh token l.user.id meta s.tokens)

  abbrev pub check_factor : ℕ → Option String → Bool → Metadata → Login → State → State × Result
  check_factor fresh totp remember meta l s =
      let enabled = (get_challenge_state l.user.id s.factors).enabled in
      let tried = challenge l.user.id (given totp) s.factors in
      let after : State = record s { factors = tried.0 } in
      let with_factor = open_session fresh remember meta l true after in
      let without_factor = open_session fresh remember meta l false s in
      if enabled && str_eq (given totp) ""
      then (s, refused 401 "MFA_REQUIRED")
      else if enabled && not tried.1
      then (after, refused 401 "MFA_CODE_INVALID")
      else if enabled
      then with_factor
      else without_factor

  abbrev pub check_password :
      ℕ → String → Option String → Bool → Metadata → Login → State → Option String → State × Result
  check_password fresh password totp remember meta l s none = (s, refused 401 "INVALID_CREDENTIALS")
  check_password fresh password totp remember meta l s (some hash) =
      let further = check_factor fresh totp remember meta l s in
      if not (k.verify_password password hash)
      then (s, refused 401 "INVALID_CREDENTIALS")
      else if not l.email_verified && not l.is_demo_user
      then (s, refused 403 "EMAIL_NOT_VERIFIED")
      else further

  -- `signIn`
  unfoldable pub sign_in :
      ℕ → String → String → Option String → Bool → Metadata → State → State × Result
  sign_in fresh email password totp remember meta s =
      elim (select_one (has_address email) s.logins) [
        | none ↦ (s, refused 401 "INVALID_CREDENTIALS")
        | some l ↦ check_password fresh password totp remember meta l s l.password_hash
      ]

  abbrev pub renewed : Bool → RefreshClaims → String → ℕ → State → State × Result
  renewed rotating claims token user s = elim (select_one (has_number user) s.logins) [
    | none ↦ (s, refused 401 "SESSION_USER_NOT_FOUND")
    | some l ↦ (
      s,
      authenticated (record {
        login = l;
        context = resolve_session l s.team;
        mfa_verified = claims.mfa_verified;
        remember_me = claims.remember_me;
        refresh_token = if rotating then some token else none;
      }),
    )
  ]

  abbrev pub after_rotation :
      RefreshClaims → String → State → Tokens × Answer (Option Session) → State × Result
  after_rotation claims token s (tokens, ok none) =
      (record s { tokens = tokens }, refused 401 "SESSION_EXPIRED")
  after_rotation claims token s (tokens, ok (some session)) =
      renewed true claims token session.user_id (record s { tokens = tokens })
  after_rotation claims token s (tokens, expiry_unknown) = (record s { tokens = tokens }, thrown)
  after_rotation claims token s (tokens, duplicate_token) = (record s { tokens = tokens }, thrown)

  abbrev pub refresh_claims :
      ℕ → ℕ → String → Bool → Metadata → State → RefreshClaims → State × Result
  refresh_claims grace fresh current rotating meta s claims =
      let token : String =
        k.generate_refresh_token claims.sub claims.remember_me claims.mfa_verified in
      let revoked : State = record s {
        tokens = (revoke_by_hash now (k.hash_token current) s.tokens).0;
      } in
      let rotation =
        after_rotation claims token s
          (rotate k.hash_token k.decode_expiry now grace fresh current token meta s.tokens) in
      let kept : State × Result = elim (find_active_by_hash now (k.hash_token current) s.tokens) [
        | none ↦ (s, refused 401 "SESSION_EXPIRED")
        | some t ↦ renewed false claims current t.user_id s
      ] in
      if not claims.is_refresh
      then (s, refused 401 "INVALID_REFRESH_TOKEN")
      else if (get_challenge_state claims.sub s.factors).enabled && not claims.mfa_verified
      then (revoked, refused 401 "MFA_REAUTH_REQUIRED")
      else if rotating
      then rotation
      else kept

  -- `issueRefreshSession`
  unfoldable pub issue_refresh_session : ℕ → ℕ → String → Bool → Metadata → State → State × Result
  issue_refresh_session grace fresh current rotating meta s =
      elim (k.verify_refresh_token current) [
        | none ↦ (s, refused 401 "INVALID_REFRESH_TOKEN")
        | some claims ↦ refresh_claims grace fresh current rotating meta s claims
      ]

  abbrev pub claimed_user : Option String → Option String → Option ℕ
  claimed_user access refresh =
      let by_refresh : Option ℕ = elim refresh [
        | none ↦ none
        | some t ↦ elim (k.verify_refresh_token t) [ none ↦ none | some c ↦ some c.sub ]
      ] in
      elim access [
        | none ↦ by_refresh
        | some t ↦ elim (k.verify_access_token t) [ none ↦ by_refresh | some c ↦ some c.sub ]
      ]

  abbrev pub revoke_given : Option String → State → State × ℕ
  revoke_given none s = (s, 0)
  revoke_given (some token) s =
      let out = revoke_by_hash now (k.hash_token token) s.tokens in
      (record s { tokens = out.0 }, out.1)

  abbrev pub revoke_everywhere : Option String → State → Option ℕ → State × ℕ
  revoke_everywhere refresh s none = revoke_given refresh s
  revoke_everywhere refresh s (some user) =
      let out = revoke_all_for_user now user s.tokens in (record s { tokens = out.0 }, out.1)

  -- `signOut`, with the count of what it revokes.
  unfoldable pub sign_out : Bool → Option String → Option String → State → State × ℕ
  sign_out all_devices refresh access s =
      let everywhere = revoke_everywhere refresh s (claimed_user access refresh) in
      let here = revoke_given refresh s in if all_devices then everywhere else here
