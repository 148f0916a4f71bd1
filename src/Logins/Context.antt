-- ===== src/Logins/Context.antt =====
-- The company that a session shows (`resolve` of src/modules/auth/sessionContextService.js), against
-- the one that a request with its token acts for.
use be_weavecarbon.Common.{
  ℕ, String, Bool, true, false, ◌≡◌, refl, ap, ◌∙◌, Option, none, some, [], ◌∷◌, inl, inr,
  Bool-cases,
}
use be_weavecarbon.Members.Team.{
  CompanyRole, MemberStatus, Member, User, Company, Team, admin, active, same_role, same_status,
  find_company,
}
use be_weavecarbon.Guards.Request.{
  primary_membership, company_membership, resolve_company_context, has_any_role,
}

-- A user with the columns that a sign-in reads; `company_id` is that of the profile.
pub record Login : Type 0 where
  pub user : User
  pub password_hash : Option String
  pub email_verified : Bool
  pub is_demo_user : Bool
  pub company_id : Option ℕ

pub record Membership : Type 0 where
  pub company_id : ℕ
  pub role : CompanyRole
  pub status : MemberStatus
  pub is_root : Bool
  pub membership_inferred : Bool

-- What `resolve` answers: the membership and `companyIdForToken`.
pub record SessionContext : Type 0 where
  pub membership : Option Membership
  pub company_id_for_token : Option ℕ

abbrev pub context_of_row : Member → SessionContext
context_of_row m = record {
  membership = some (record {
    company_id = m.company_id;
    role = m.role;
    status = m.status;
    is_root = same_role m.role admin;
    membership_inferred = false;
  });
  company_id_for_token = some m.company_id;
}

abbrev pub inferred_context : Option ℕ → Option Company → SessionContext
inferred_context own none = record { membership = none; company_id_for_token = own }
inferred_context own (some c) = record {
  membership = some (record {
    company_id = c.id;
    role = admin;
    status = active;
    is_root = true;
    membership_inferred = true;
  });
  company_id_for_token = some c.id;
}

abbrev pub profile_context : Team → Option ℕ → SessionContext
profile_context team none = record { membership = none; company_id_for_token = none }
profile_context team (some company) = inferred_context (some company) (find_company company team)

-- `resolve`, without the time of the login that it stores.
unfoldable pub resolve_session : Login → Team → SessionContext
resolve_session l team = elim (primary_membership l.user.id team) [
  | some m ↦ context_of_row m
  | none ↦ profile_context team l.company_id
]

-- The session shows an administrator of the company.
pub record ShowsRoot (company : ℕ) (s : SessionContext) : Type 0 where
  pub shown : Membership
  pub has : s.membership ≡ some shown
  pub root : shown.is_root ≡ true
  pub same : shown.company_id ≡ company

-- A user whose profile names a company is shown as an administrator of it when the seat of the user
-- there is not active and no other is, though a request with the token of that session acts for no
-- company.
pub resolve_session-infers_root :
    (l : Login) (team : Team) (company : Company) (seat : Member)
    → primary_membership l.user.id team ≡ none
    → l.company_id ≡ some company.id
    → find_company company.id team ≡ some company
    → company_membership company.id l.user.id team ≡ some seat
    → same_status seat.status active ≡ false
    → ShowsRoot company.id (resolve_session l team)
      × (resolve_company_context l.user (resolve_session l team).company_id_for_token team ≡ none)
unfolding resolve_session resolve_company_context
resolve_session-infers_root l team company seat n p f s off =
    let root : Membership = record {
      company_id = company.id;
      role = admin;
      status = active;
      is_root = true;
      membership_inferred = true;
    } in
    let shows : resolve_session l team ≡ inferred_context (some company.id) (some company) =
      rw (n, p, f, resolve_session) refl in
    (
      record {
        shown = root;
        has = ap (λ (c : SessionContext). c.membership) shows;
        root = refl;
        same = refl;
      },
      ap (λ (c : SessionContext). resolve_company_context l.user c.company_id_for_token team) shows
          ∙ shut,
    )
  where
    shut : resolve_company_context l.user (some company.id) team ≡ none
    shut = elim (Bool-cases (has_any_role l.user.roles ("b2b" ∷ "admin" ∷ []))) [
      | inl t ↦ rw (t, s, off, resolve_company_context) refl
      | inr t ↦ rw (t, resolve_company_context) refl
    ]
