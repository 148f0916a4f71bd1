-- ===== src/Logins/Invited.antt =====
-- What an accepted invitation (`acceptCompanyInvite` of src/modules/auth/verificationService.js)
-- has been checked for, and what its statements change, whatever others do between them.
use be_weavecarbon.Common.{
  ℕ, String, Bool, true, false, ◌≡◌, ◌⊎◌, some, not, ◌&&◌, any, All, select_one, delete_where,
}
use be_weavecarbon.Members.Team.{Member, disabled, same_status, is_seat}
use be_weavecarbon.Members.Changes.{is_company_member}
use be_weavecarbon.Guards.Request.{company_membership}
use be_weavecarbon.Logins.Context.{Login}
use be_weavecarbon.Logins.Flow.{has_address, has_number}
use be_weavecarbon.Logins.Verification.{
  InviteClaims, Verifier, Accounts, Answered, Between, answered, invite_email, is_invite, confirmed,
  after_activation, marked_login, at_login, at_refresh,
}

-- A seat that is not disabled.
abbrev pub is_open_seat : ℕ → ℕ → Member → Bool
is_open_seat company user m = is_seat company user m && not (same_status m.status disabled)

module _ (k : Verifier) (now : ℕ) (others : Between) where
  -- No row of the user is left unconfirmed.
  abbrev pub AllConfirmed : ℕ → Accounts → Type 0
  AllConfirmed user s =
      All (λ (l : Login). (has_number user l && not l.email_verified) ≡ false) s.logins

module _ (k : Verifier) (now : ℕ) (others : Between) (token : String) (s : Accounts) where
  -- What the invitation was checked for, and what each of the statements makes of the tables it finds:
  -- `read` are those of the seat, `at` those at the activation.
  pub record IsJoined (company : ℕ) (shown : Login) (after : Accounts) : Type 0 where
    pub claims : InviteClaims
    pub user : Login
    pub seat : Member
    pub read : Accounts
    pub at : Accounts
    pub verified : k.verify_company_invite_token token ≡ some claims
    pub invite : is_invite k now others claims ≡ true
    pub names : claims.company_id ≡ some company
    pub found : select_one (has_address (invite_email k now others claims)) s.logins ≡ some user
    pub reads : read ≡ others.before_seat s
    pub seated : company_membership company user.user.id read.team ≡ some seat
    pub allowed : same_status seat.status disabled ≡ false
    pub confirms :
        (user.email_verified ≡ true)
        ⊎ AllConfirmed k now others user.user.id (confirmed k now others user read)
    pub arrives : at ≡ others.before_activation (confirmed k now others user read)
    pub joins :
        is_company_member user.user.id company (after_activation k now others company user at).team
        ≡ any (is_open_seat company user.user.id) at.team.members
    pub others_kept :
        delete_where
          (is_seat company user.user.id)
          (after_activation k now others company user at).team.members
        ≡ delete_where (is_seat company user.user.id) at.team.members
    pub stays :
        is_company_member user.user.id company
          (marked_login k now others company user (at_login k now others company user read)).team
        ≡ is_company_member user.user.id company (at_login k now others company user read).team
    pub ends : after ≡ at_refresh k now others company user read
    pub shows : shown.user.id ≡ user.user.id

  abbrev Joins : ℕ × Login → Accounts × Answered (ℕ × Login) → Type 0
  Joins p r = r.1 ≡ answered p → IsJoined p.0 p.1 r.0
