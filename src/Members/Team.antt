-- ===== src/Members/Team.antt =====
-- The tables that src/modules/organizations/companyMembersRepository.js reads and writes, and its
-- statements. Times are milliseconds; identifiers are numbers. The rows of `user_roles` are a field
-- of the user, of `companies` and `profiles` the columns that the statements use.
use be_weavecarbon.Common.{
  ℕ, String, Bool, true, false, not, ◌&&◌, Option, none, some, List, [], ◌∷◌, ltb, ◌==◌, str_eq,
  if◌then◌else◌, is_some, any, select_one, count_where, delete_where, update_where, select_where,
}

pub data CompanyRole : Type 0 where
  admin : CompanyRole
  member : CompanyRole
  viewer : CompanyRole

pub data MemberStatus : Type 0 where
  active : MemberStatus
  invited : MemberStatus
  disabled : MemberStatus

pub record Member : Type 0 where
  pub id : ℕ
  pub company_id : ℕ
  pub user_id : ℕ
  pub role : CompanyRole
  pub status : MemberStatus
  pub invited_by : Option ℕ
  pub created_at : ℕ
  pub updated_at : ℕ

pub record User : Type 0 where
  pub id : ℕ
  pub email : String
  pub full_name : String
  pub roles : List String

pub record Profile : Type 0 where
  pub user_id : ℕ
  pub company_id : Option ℕ

pub record Company : Type 0 where
  pub id : ℕ
  pub name : String

pub record Team : Type 0 where
  pub companies : List Company
  pub users : List User
  pub profiles : List Profile
  pub members : List Member

abbrev pub same_role : CompanyRole → CompanyRole → Bool
same_role admin admin = true
same_role member member = true
same_role viewer viewer = true
same_role _ _ = false

abbrev pub same_status : MemberStatus → MemberStatus → Bool
same_status active active = true
same_status invited invited = true
same_status disabled disabled = true
same_status _ _ = false

abbrev pub in_company : ℕ → Member → Bool
in_company company m = m.company_id == company

abbrev pub passes_role : Option CompanyRole → Member → Bool
passes_role none m = true
passes_role (some r) m = same_role m.role r

abbrev pub passes_status : Option MemberStatus → Member → Bool
passes_status none m = true
passes_status (some s) m = same_status m.status s

abbrev pub has_user : Team → Member → Bool
has_user team m = any (λ (u : User). u.id == m.user_id) team.users

-- `ORDER BY created_at DESC`
abbrev pub put_by_date : Member → List Member → List Member
put_by_date m [] = m ∷ []
put_by_date m (x ∷ rest) =
    let further = x ∷ put_by_date m rest in
    if ltb m.created_at x.created_at then further else m ∷ x ∷ rest

abbrev pub by_date : List Member → List Member
by_date [] = []
by_date (m ∷ rest) = put_by_date m (by_date rest)

unfoldable pub list_members : ℕ → Option MemberStatus → Option CompanyRole → Team → List Member
list_members company status role team = by_date (
    select_where
      (λ m.
        in_company company m && (has_user team m && (passes_status status m && passes_role role m)))
      team.members)

pub record MemberMeta : Type 0 where
  pub total : ℕ
  pub active : ℕ
  pub invited : ℕ
  pub disabled : ℕ

abbrev pub with_status : ℕ → MemberStatus → Member → Bool
with_status company s m = in_company company m && same_status m.status s

unfoldable pub get_member_meta : ℕ → Team → MemberMeta
get_member_meta company team = record {
  total = count_where (in_company company) team.members;
  active = count_where (with_status company active) team.members;
  invited = count_where (with_status company invited) team.members;
  disabled = count_where (with_status company disabled) team.members;
}

unfoldable pub find_company : ℕ → Team → Option Company
find_company company team = select_one (λ c. c.id == company) team.companies

-- A member whose user has the address.
abbrev pub has_email : Team → String → Member → Bool
has_email team email m = any (λ (u : User). u.id == m.user_id && str_eq u.email email) team.users

unfoldable pub find_membership_by_email : ℕ → String → Team → Option Member
find_membership_by_email company email team =
    select_one (λ m. in_company company m && has_email team email m) team.members

abbrev pub is_free_profile : ℕ → Profile → Bool
is_free_profile user p = p.user_id == user && not (is_some p.company_id)

unfoldable pub attach_profile_to_company : ℕ → ℕ → Team → Team
attach_profile_to_company company user team = record team {
  profiles =
      update_where (is_free_profile user) (λ p. record p { company_id = some company })
        team.profiles;
}

abbrev pub has_id : ℕ → User → Bool
has_id user u = u.id == user

unfoldable pub has_b2b_role : ℕ → Team → Bool
has_b2b_role user team = any (λ u. has_id user u && any (str_eq "b2b") u.roles) team.users

unfoldable pub add_b2b_role : ℕ → Team → Team
add_b2b_role user team = record team {
  users = update_where (has_id user) (λ u. record u { roles = "b2b" ∷ u.roles }) team.users;
}

abbrev pub is_seat : ℕ → ℕ → Member → Bool
is_seat company user m = in_company company m && m.user_id == user

abbrev pub new_member : ℕ → ℕ → ℕ → ℕ → CompanyRole → ℕ → Member
new_member now fresh company user role invited_by = record {
  id = fresh;
  company_id = company;
  user_id = user;
  role = role;
  status = invited;
  invited_by = some invited_by;
  created_at = now;
  updated_at = now;
}

-- `insertMember`: none is the error of UNIQUE(company_id, user_id).
unfoldable pub insert_member : Member → Team → Option Team
insert_member m team =
    if is_some (select_one (is_seat m.company_id m.user_id) team.members)
    then none
    else some (record team { members = m ∷ team.members })

-- `WHERE id = $1 AND company_id = $2`
abbrev pub is_target : ℕ → ℕ → Member → Bool
is_target company i m = m.id == i && in_company company m

unfoldable pub find_member_for_mutation : ℕ → ℕ → Team → Option Member
find_member_for_mutation company i team = select_one (is_target company i) team.members

-- The fields of an update that are given.
pub record UpdateData : Type 0 where
  pub role : Option CompanyRole
  pub status : Option MemberStatus

abbrev pub changed : ℕ → UpdateData → Member → Member
changed now d m = record m {
  role = elim d.role [ none ↦ m.role | some r ↦ r ];
  status = elim d.status [ none ↦ m.status | some s ↦ s ];
  updated_at = now;
}

unfoldable pub update_member_rows : ℕ → ℕ → ℕ → UpdateData → Team → Team × Option Member
update_member_rows now company i d team = (
  record team { members = update_where (is_target company i) (changed now d) team.members },
  elim (select_one (is_target company i) team.members) [
    | none ↦ none
    | some m ↦ some (changed now d m)
  ],
)

unfoldable pub delete_member_rows : ℕ → ℕ → Team → Team × Option Member
delete_member_rows company i team = (
  record team { members = delete_where (is_target company i) team.members },
  select_one (is_target company i) team.members,
)

abbrev pub is_active_seat : ℕ → ℕ → Member → Bool
is_active_seat company user m = is_seat company user m && same_status m.status active

unfoldable pub find_active_role : ℕ → ℕ → Team → Option CompanyRole
find_active_role company user team = elim (select_one (is_active_seat company user) team.members) [
  | none ↦ none
  | some m ↦ some m.role
]

unfoldable pub has_active_membership : ℕ → ℕ → Team → Bool
has_active_membership company user team =
    is_some (select_one (is_active_seat company user) team.members)

-- The statements of src/modules/auth/verificationRepository.js on members, without the time of the
-- last login.
abbrev pub is_invited_seat : ℕ → ℕ → Member → Bool
is_invited_seat company user m = is_seat company user m && same_status m.status invited

abbrev pub activate : ℕ → Member → Member
activate now m = record m { status = active; updated_at = now }

-- `activateCompanyMembership`
abbrev pub activate_company_membership : ℕ → ℕ → ℕ → Team → Team
activate_company_membership now company user team = record team {
  members = update_where (is_invited_seat company user) (activate now) team.members;
}

abbrev pub touch : ℕ → Member → Member
touch now m = record m { updated_at = now }

-- `markMembershipLoggedIn`
abbrev pub mark_membership_logged_in : ℕ → ℕ → ℕ → Team → Team
mark_membership_logged_in now company user team = record team {
  members = update_where (is_seat company user) (touch now) team.members;
}

-- The row of `insertCompanyAdmin` of src/modules/auth/userRepository.js.
abbrev pub company_admin : ℕ → ℕ → ℕ → ℕ → Member
company_admin now fresh company user = record {
  id = fresh;
  company_id = company;
  user_id = user;
  role = admin;
  status = active;
  invited_by = some user;
  created_at = now;
  updated_at = now;
}
