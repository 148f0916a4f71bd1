-- ===== src/Members/Changes.antt =====
-- The operations of src/modules/organizations/companyMembersService.js. Each runs in a transaction:
-- an error leaves the tables as they were. The events are those queued for analytics, by name; mail
-- is a parameter where its answer counts.
use be_weavecarbon.Common.{
  ℕ, String, Bool, false, not, ◌&&◌, Option, none, some, List, [], ◌∷◌, ◌==◌, str_eq, if◌then◌else◌,
  is_some, any, select_one,
}
use be_weavecarbon.Members.Team.{
  CompanyRole, Member, User, Team, UpdateData, admin, invited, same_role, same_status, find_company,
  find_membership_by_email, attach_profile_to_company, has_b2b_role, add_b2b_role, insert_member,
  new_member, find_member_for_mutation, has_user, update_member_rows, delete_member_rows,
  find_active_role, has_active_membership, is_target,
}

-- What an operation answers, with the events that it queues, or the code of its error.
pub data Outcome {ℓ} (A : Type ℓ) : Type ℓ where
  done : A → List String → Outcome A
  failed : String → Outcome A

-- `getUserByEmail`
unfoldable pub user_by_email : String → Team → Option User
user_by_email email team = select_one (λ u. str_eq u.email email) team.users

-- `createInvitedCompanyUser` of src/modules/auth/accountProvisioningService.js: the user with its
-- profile and the role b2b.
unfoldable pub create_invited_user : ℕ → String → String → ℕ → Team → Team
create_invited_user fresh email full_name company team = record team {
  users =
      (record { id = fresh; email = email; full_name = full_name; roles = "b2b" ∷ [] })
      ∷ team.users;
  profiles = (record { user_id = fresh; company_id = some company }) ∷ team.profiles;
}

abbrev inserted : Team → Member → Option Team → Team × Outcome Member
inserted team m none = (team, failed "23505")
inserted team m (some last) = (last, done m ("wc_member_invited" ∷ []))

-- `insertMember` in the transaction of `team`, on the tables `at`.
abbrev pub seat : Team → Member → Team → Team × Outcome Member
seat team m at = inserted team m (insert_member m at)

abbrev pub with_role : ℕ → Team → Team
with_role user team = if has_b2b_role user team then team else add_b2b_role user team

-- `createMember` from the normalized address and name.
unfoldable pub create_member :
    ℕ → ℕ → ℕ → ℕ → ℕ → String → String → CompanyRole → Team → Team × Outcome Member
create_member now fresh fresh_user company invited_by email full_name role team =
    if not (is_some (find_company company team))
    then (team, failed "COMPANY_NOT_FOUND")
    else if is_some (find_membership_by_email company email team)
    then (team, failed "DUPLICATE_MEMBER_EMAIL")
    else elim (user_by_email email team) [
      | none ↦
          seat team (new_member now fresh company fresh_user role invited_by)
            (create_invited_user fresh_user email full_name company team)
      | some user ↦
          if any (str_eq "b2c") user.roles
          then (team, failed "B2C_EMAIL_NOT_ALLOWED_FOR_B2B")
          else seat team (new_member now fresh company user.id role invited_by)
              (with_role user.id (attach_profile_to_company company user.id team))
    ]

-- `findInvite`: the joins want the user and the company of the member.
unfoldable pub find_invite : ℕ → ℕ → Team → Option Member
find_invite company i team =
    select_one
      (λ m. is_target company i m && (has_user team m && is_some (find_company company team)))
      team.members

-- `resendInvite`: `send` tells whether the mail to a member goes out.
unfoldable pub resend_invite : (Member → Bool) → ℕ → ℕ → Team → Outcome Member
resend_invite send company i team = elim (find_invite company i team) [
  | none ↦ failed "MEMBER_NOT_FOUND"
  | some m ↦
      if not (same_status m.status invited)
      then failed "INVITE_NOT_PENDING"
      else if not (send m)
      then failed "INVITE_EMAIL_SEND_FAILED"
      else done m []
]

abbrev pub update_events : UpdateData → List String
update_events d =
    let disabling = if is_some d.status then "wc_member_disabled" ∷ [] else [] in
    if is_some d.role then "wc_member_role_changed" ∷ disabling else disabling

abbrev pub updated : Team → UpdateData → Team × Option Member → Team × Outcome Member
updated team d (last, none) = (team, failed "MEMBER_UPDATE_FAILED")
updated team d (last, some m) = (last, done m (update_events d))

-- `updateMember` by `user`.
unfoldable pub update_member : ℕ → ℕ → ℕ → ℕ → UpdateData → Team → Team × Outcome Member
update_member now company i user d team = elim (find_member_for_mutation company i team) [
  | none ↦ (team, failed "MEMBER_NOT_FOUND")
  | some target ↦
      if target.user_id == user
      then (team, failed "CANNOT_UPDATE_SELF")
      else if same_role target.role admin
      then (team, failed "ADMIN_MEMBER_PROTECTED")
      else if not (is_some d.role) && not (is_some d.status)
      then (team, failed "NO_FIELDS_TO_UPDATE")
      else updated team d (update_member_rows now company i d team)
]

abbrev pub deleted : Team → Team × Option Member → Team × Outcome Member
deleted team (last, none) = (team, failed "MEMBER_DELETE_FAILED")
deleted team (last, some m) = (last, done m ("wc_member_removed" ∷ []))

-- `deleteMember` by `user`.
unfoldable pub delete_member : ℕ → ℕ → ℕ → Team → Team × Outcome Member
delete_member company i user team = elim (find_member_for_mutation company i team) [
  | none ↦ (team, failed "MEMBER_NOT_FOUND")
  | some target ↦
      if target.user_id == user
      then (team, failed "CANNOT_DELETE_SELF")
      else if same_role target.role admin
      then (team, failed "ADMIN_MEMBER_PROTECTED")
      else deleted team (delete_member_rows company i team)
]

unfoldable pub is_company_admin : ℕ → ℕ → Team → Bool
is_company_admin user company team = elim (find_active_role company user team) [
  | none ↦ false
  | some r ↦ same_role r admin
]

unfoldable pub is_company_member : ℕ → ℕ → Team → Bool
is_company_member user company team = has_active_membership company user team
