-- ===== src/Logins/Verification.antt =====
-- The operations of src/modules/auth/verificationService.js and verificationRepository.js of the same
-- folder: an address is verified, a mail is sent again, an invitation is accepted. The times of the
-- last login are left out, and so is the hook that clears a cookie. The record Verifier gathers the
-- functions of libraries: of texts and of signed tokens. An absent text is the empty one.
use be_weavecarbon.Common.{
  ℕ, String, Bool, true, false, not, ◌&&◌, ◌||◌, Option, none, some, List, str_eq, if◌then◌else◌,
  select_one, update_where,
}
use be_weavecarbon.Members.Team.{
  Member, Team, disabled, same_status, activate_company_membership, mark_membership_logged_in,
}
use be_weavecarbon.Guards.Request.{primary_membership, company_membership}
use be_weavecarbon.Logins.Context.{Login}
use be_weavecarbon.Logins.Flow.{has_address, has_number}

-- The payload of a token of `generateVerificationToken`.
pub record EmailClaims : Type 0 where
  pub type : String
  pub email : String

-- The payload of a token of `generateCompanyInviteToken`.
pub record InviteClaims : Type 0 where
  pub type : String
  pub email : String
  pub company_id : Option ℕ

pub record Verifier : Type 0 where
  pub trim : String → String
  pub to_lower_case : String → String
  pub verify_email_token : String → Option EmailClaims
  pub verify_company_invite_token : String → Option InviteClaims
  pub generate_verification_token : String → String

pub record Accounts : Type 0 where
  pub logins : List Login
  pub team : Team

-- What an operation answers, or the status and the code of its error.
pub data Answered (A : Type 0) : Type 0 where
  answered : A → Answered A
  rejected : ℕ → String → Answered A

pub record Verification : Type 0 where
  pub already_verified : Bool
  pub user : Login
  pub company_id_for_token : Option ℕ

-- A mail with the token for an address.
pub record Mail : Type 0 where
  pub to : String
  pub token : String
  pub full_name : String

-- The answer of `resendVerification`, and the mail that it hands over.
pub record Resent : Type 0 where
  pub sent : Bool
  pub hidden : Bool
  pub mail : Option Mail

abbrev pub is_empty : String → Bool
is_empty text = str_eq text ""

abbrev pub with_confirmed : Login → Login
with_confirmed l = record l { email_verified = true }

unfoldable pub mark_email_verified : ℕ → Accounts → Accounts
mark_email_verified user s = record s {
  logins = update_where (has_number user) with_confirmed s.logins;
}

abbrev pub fallback_company : Option ℕ → Option Member → Option ℕ
fallback_company own none = own
fallback_company own (some m) = some m.company_id

-- `resolveCompanyIdForToken`
abbrev pub resolve_company_id_for_token : ℕ → Option ℕ → Team → Option ℕ
resolve_company_id_for_token user own team = fallback_company own (primary_membership user team)

module _ (k : Verifier) where
  abbrev pub requested : Bool → String → String
  requested normalize address = if normalize then k.to_lower_case (k.trim address) else address

  abbrev pub token_email : Bool → String → String
  token_email normalize email = if normalize then k.to_lower_case email else email

  abbrev pub is_email_token : Bool → String → EmailClaims → Bool
  is_email_token normalize address c =
      str_eq c.type "email_verification"
      && str_eq (token_email normalize c.email) (requested normalize address)

  -- `verifyEmail` of a user that was found.
  abbrev pub verify_user : Bool → Login → Accounts → Accounts × Answered Verification
  verify_user again_fails l s =
      if l.email_verified
      then if again_fails then (s, rejected 400 "ALREADY_VERIFIED") else (
        s,
        answered (record { already_verified = true; user = l; company_id_for_token = none }),
      )
      else (
        mark_email_verified l.user.id s,
        answered (record {
          already_verified = false;
          user = l;
          company_id_for_token = resolve_company_id_for_token l.user.id l.company_id s.team;
        }),
      )

  abbrev pub verify_address : Bool → String → Accounts → Accounts × Answered Verification
  verify_address again_fails address s = elim (select_one (has_address address) s.logins) [
    | none ↦ (s, rejected 404 "USER_NOT_FOUND")
    | some l ↦ verify_user again_fails l s
  ]

  unfoldable pub verify_email :
      String → String → Bool → Bool → Accounts → Accounts × Answered Verification
  verify_email token address normalize again_fails s =
      if is_empty token || is_empty address
      then (s, rejected 400 "MISSING_PARAMETERS")
      else elim (k.verify_email_token token) [
        | none ↦ (s, rejected 400 "INVALID_VERIFICATION_TOKEN")
        | some c ↦
            if not (is_email_token normalize address c)
            then (s, rejected 400 "INVALID_VERIFICATION_TOKEN")
            else verify_address again_fails (requested normalize address) s
      ]

  -- `resendVerification`: it changes no table, and does not look at what the mailer answers.
  unfoldable pub resend_verification : String → Accounts → Answered Resent
  resend_verification address s =
      if is_empty address
      then rejected 400 "VALIDATION_ERROR"
      else elim (select_one (has_address address) s.logins) [
        | none ↦ answered (record { sent = false; hidden = true; mail = none })
        | some l ↦
            if l.email_verified
            then rejected 400 "ALREADY_VERIFIED"
            else answered (record {
              sent = true;
              hidden = false;
              mail = some (record {
                to = address;
                token = k.generate_verification_token address;
                full_name = l.user.full_name;
              });
            })
      ]

-- What other requests make of the tables before a statement of `acceptCompanyInvite`, which runs in
-- no transaction: before it reads the seat, and before each of its writes and its last read.
pub record Between : Type 0 where
  pub before_seat : Accounts → Accounts
  pub before_confirm : Accounts → Accounts
  pub before_activation : Accounts → Accounts
  pub before_login : Accounts → Accounts
  pub before_refresh : Accounts → Accounts

module _ (k : Verifier) (now : ℕ) (others : Between) where
  abbrev pub invite_email : InviteClaims → String
  invite_email c = k.to_lower_case (k.trim c.email)

  abbrev pub is_invite : InviteClaims → Bool
  is_invite c = str_eq c.type "company_invite" && not (is_empty (invite_email c))

  -- `if (!user.email_verified) await repository.markEmailVerified(user.id)`
  abbrev pub confirmed : Login → Accounts → Accounts
  confirmed l s =
      let marked = mark_email_verified l.user.id (others.before_confirm s) in
      if l.email_verified then s else marked

  abbrev pub after_activation : ℕ → Login → Accounts → Accounts
  after_activation company l s = record s {
    team = activate_company_membership now company l.user.id s.team;
  }

  abbrev pub marked_login : ℕ → Login → Accounts → Accounts
  marked_login company l s = record s {
    team = mark_membership_logged_in now company l.user.id s.team;
  }

  -- The tables at the activation, and those after each of the statements that follow.
  abbrev pub at_activation : Login → Accounts → Accounts
  at_activation l s = others.before_activation (confirmed l s)

  abbrev pub at_login : ℕ → Login → Accounts → Accounts
  at_login company l s = others.before_login (after_activation company l (at_activation l s))

  abbrev pub at_refresh : ℕ → Login → Accounts → Accounts
  at_refresh company l s = others.before_refresh (marked_login company l (at_login company l s))

  -- `refreshedUser || user`
  abbrev pub refreshed : Login → Accounts → Login
  refreshed l s = elim (select_one (has_number l.user.id) s.logins) [ none ↦ l | some x ↦ x ]

  -- The end of `acceptCompanyInvite`, for a user and a seat that were read.
  abbrev pub join : ℕ → Login → Accounts → Accounts × Answered (ℕ × Login)
  join company l s =
      let after : Accounts = at_refresh company l s in
      (after, answered (company, refreshed l after))

  abbrev pub accept_for : ℕ → Login → Accounts → Accounts × Answered (ℕ × Login)
  accept_for company l s = elim (company_membership company l.user.id s.team) [
    | none ↦ (s, rejected 404 "INVITE_NOT_FOUND")
    | some m ↦
        if same_status m.status disabled
        then (s, rejected 403 "INVITE_DISABLED")
        else join company l s
  ]

  abbrev pub accept_claims : InviteClaims → Accounts → Accounts × Answered (ℕ × Login)
  accept_claims c s = elim c.company_id [
    | none ↦ (s, rejected 400 "INVALID_INVITE_TOKEN")
    | some company ↦
        if not (is_invite c)
        then (s, rejected 400 "INVALID_INVITE_TOKEN")
        else elim (select_one (has_address (invite_email c)) s.logins) [
          | none ↦ (s, rejected 404 "USER_NOT_FOUND")
          | some l ↦ accept_for company l (others.before_seat s)
        ]
  ]

  unfoldable pub accept_company_invite : String → Accounts → Accounts × Answered (ℕ × Login)
  accept_company_invite token s =
      if is_empty token
      then (s, rejected 400 "MISSING_PARAMETERS")
      else elim (k.verify_company_invite_token token) [
        | none ↦ (s, rejected 400 "INVALID_INVITE_TOKEN")
        | some c ↦ accept_claims c s
      ]
