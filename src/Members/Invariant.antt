-- ===== src/Members/Invariant.antt =====
-- How the operations of src/modules/organizations/companyMembersService.js, and the statements on
-- members of src/modules/auth/verificationRepository.js and userRepository.js, change the rows of
-- `company_members`, the histories that they make, and what holds of every table that they reach.
use be_weavecarbon.Common.{
  ℕ, ◌==◌, String, false, ◌≡◌, refl, sym, ap, subst, Option, none, some, List, ◌∷◌, arith, not,
  ◌&&◌, All-map, is_some, inl, inr, Option-cases, if_intro, option_intro, select_one,
  select_one-All, update_where, delete_where, IsUnique, Lacks, IsUnique-update_where,
  IsUnique-delete_where, any, str_eq,
}
use be_weavecarbon.Members.Team.{
  CompanyRole, Member, Team, UpdateData, admin, same_role, find_company, find_membership_by_email,
  attach_profile_to_company, has_b2b_role, add_b2b_role, insert_member, new_member,
  find_member_for_mutation, update_member_rows, delete_member_rows, is_target, is_seat, changed,
  is_invited_seat, activate, activate_company_membership, touch, mark_membership_logged_in,
  company_admin,
}
use be_weavecarbon.Members.Changes.{
  Outcome, user_by_email, create_invited_user, seat, with_role, create_member, update_member,
  delete_member,
}

abbrev pub member_id : Member → ℕ
member_id m = m.id

abbrev pub seat_of : Member → ℕ × ℕ
seat_of m = (m.company_id, m.user_id)

-- What an operation for a company makes of the rows.
pub data Change (company : ℕ) : List Member → List Member → Type 0 where
  kept : {rows : List Member} → Change company rows rows
  joined :
      (m : Member) {rows : List Member}
      → Lacks member_id m.id rows
      → m.company_id ≡ company
      → select_one (is_seat company m.user_id) rows ≡ none
      → Change company rows (m ∷ rows)
  altered :
      (now i : ℕ) (d : UpdateData) (target : Member) {rows : List Member}
      → select_one (is_target company i) rows ≡ some target
      → same_role target.role admin ≡ false
      → Change company rows (update_where (is_target company i) (changed now d) rows)
  left :
      (i : ℕ) (target : Member) {rows : List Member}
      → select_one (is_target company i) rows ≡ some target
      → same_role target.role admin ≡ false
      → Change company rows (delete_where (is_target company i) rows)
  entered :
      (now user : ℕ) {rows : List Member}
      → Change company rows (update_where (is_invited_seat company user) (activate now) rows)
  touched :
      (now user : ℕ) {rows : List Member}
      → Change company rows (update_where (is_seat company user) (touch now) rows)

abbrev Changes : ℕ → Team → Team × Outcome Member → Type 0
Changes company team r = Change company team.members r.0.members

seat-Change :
    (company : ℕ) (m : Member) (team at : Team)
    → Lacks member_id m.id team.members
    → m.company_id ≡ company
    → at.members ≡ team.members
    → Changes company team (seat team m at)
unfolding insert_member
seat-Change company m team at new c same =
    elim (Option-cases (select_one (is_seat m.company_id m.user_id) at.members)) [
      | inr (old, e) ↦ rw (e, insert_member) Change.kept
      | inl e ↦
          rw (e, insert_member)
            (subst (λ rows. Change company team.members (m ∷ rows)) (sym same)
              (Change.joined m new c (rw (same, c) at e)))
    ]

pub with_role-members : (user : ℕ) (team : Team) → (with_role user team).members ≡ team.members
unfolding add_b2b_role
with_role-members user team =
    if_intro (λ (t : Team). t.members ≡ team.members) (has_b2b_role user team) (λ _. refl)
      (λ _. refl)

create_member-Change :
    (now fresh fresh_user company by : ℕ) (email full_name : String) (role : CompanyRole)
    (team : Team)
    → Lacks member_id fresh team.members
    → Changes company team (create_member now fresh fresh_user company by email full_name role team)
unfolding create_member create_invited_user attach_profile_to_company
create_member-Change now fresh fresh_user company by email full_name role team new =
    if_intro C (not (is_some (find_company company team))) (λ _. Change.kept)
      (λ _.
        if_intro C (is_some (find_membership_by_email company email team)) (λ _. Change.kept)
          (λ _.
            option_intro C (user_by_email email team)
              (λ _.
                seat-Change company (new_member now fresh company fresh_user role by) team
                  (create_invited_user fresh_user email full_name company team) new refl refl)
              (λ user _.
                if_intro C (any (str_eq "b2c") user.roles) (λ _. Change.kept)
                  (λ _.
                    seat-Change company (new_member now fresh company user.id role by) team
                      (with_role user.id (attach_profile_to_company company user.id team)) new refl
                      (with_role-members user.id
                        (attach_profile_to_company company user.id team))))))
  where
    C : Team × Outcome Member → Type 0
    C = Changes company team

update_member-Change :
    (now company i user : ℕ) (d : UpdateData) (team : Team)
    → Changes company team (update_member now company i user d team)
unfolding update_member find_member_for_mutation update_member_rows
update_member-Change now company i user d team =
    option_intro C (find_member_for_mutation company i team) (λ _. Change.kept)
      (λ target e.
        if_intro C (target.user_id == user) (λ _. Change.kept)
          (λ _.
            if_intro C (same_role target.role admin) (λ _. Change.kept)
              (λ off.
                if_intro C (not (is_some d.role) && not (is_some d.status)) (λ _. Change.kept)
                  (λ _. rw e (Change.altered now i d target e off)))))
  where
    C : Team × Outcome Member → Type 0
    C = Changes company team

delete_member-Change :
    (company i user : ℕ) (team : Team) → Changes company team (delete_member company i user team)
unfolding delete_member find_member_for_mutation delete_member_rows
delete_member-Change company i user team =
    option_intro C (find_member_for_mutation company i team) (λ _. Change.kept)
      (λ target e.
        if_intro C (target.user_id == user) (λ _. Change.kept)
          (λ _.
            if_intro C (same_role target.role admin) (λ _. Change.kept)
              (λ off. rw e (Change.left i target e off))))
  where
    C : Team × Outcome Member → Type 0
    C = Changes company team

-- `insertMember` in the transaction of `team`, which an error rolls back.
abbrev or_before : Team → Option Team → Team
or_before team none = team
or_before team (some last) = last

enrolled-Change :
    (company : ℕ) (m : Member) (team : Team)
    → Lacks member_id m.id team.members
    → m.company_id ≡ company
    → Change company team.members (or_before team (insert_member m team)).members
unfolding insert_member
enrolled-Change company m team new c =
    elim (Option-cases (select_one (is_seat m.company_id m.user_id) team.members)) [
      | inr (old, e) ↦ rw (e, insert_member) Change.kept
      | inl e ↦ rw (e, insert_member) (Change.joined m new c (rw (sym c) e))
    ]

-- Identifiers are unique, and a user has one seat in a company at most.
pub record IsSeated (rows : List Member) : Type 0 where
  pub ids : IsUnique member_id rows
  pub seats : IsUnique seat_of rows

Lacks-seat :
    (m : Member) (rows : List Member)
    → select_one (is_seat m.company_id m.user_id) rows ≡ none
    → Lacks seat_of (seat_of m) rows
Lacks-seat m rows e =
    All-map (λ x. is_seat m.company_id m.user_id x ≡ false) _ rows
      (λ x t same.
        absurd (ground (arith, ap (λ (p : ℕ × ℕ). p.0) same, ap (λ (p : ℕ × ℕ). p.1) same)))
      (select_one-All (is_seat m.company_id m.user_id) rows e)

Change-IsSeated :
    (company : ℕ) (rows last : List Member)
    → Change company rows last
    → IsSeated rows
    → IsSeated last
Change-IsSeated company rows last Change.kept h = h
Change-IsSeated company rows last (Change.joined m new c e) h = record {
  ids = (new, h.ids);
  seats = (Lacks-seat m rows (rw c e), h.seats);
}
Change-IsSeated company rows last (Change.altered now i d target e off) h = record {
  ids =
      IsUnique-update_where member_id (is_target company i) (changed now d) rows (λ m. refl) h.ids;
  seats =
      IsUnique-update_where seat_of (is_target company i) (changed now d) rows (λ m. refl) h.seats;
}
Change-IsSeated company rows last (Change.left i target e off) h = record {
  ids = IsUnique-delete_where member_id (is_target company i) rows h.ids;
  seats = IsUnique-delete_where seat_of (is_target company i) rows h.seats;
}
Change-IsSeated company rows last (Change.entered now user) h = record {
  ids =
      IsUnique-update_where member_id (is_invited_seat company user) (activate now) rows (λ m. refl)
        h.ids;
  seats =
      IsUnique-update_where seat_of (is_invited_seat company user) (activate now) rows (λ m. refl)
        h.seats;
}
Change-IsSeated company rows last (Change.touched now user) h = record {
  ids = IsUnique-update_where member_id (is_seat company user) (touch now) rows (λ m. refl) h.ids;
  seats = IsUnique-update_where seat_of (is_seat company user) (touch now) rows (λ m. refl) h.seats;
}

-- An operation for a company of the service of members, the statements by which a sign-in and an
-- accepted invitation write its members, and the entry of its first administrator. A new member has a
-- new identifier.
pub data Step (company : ℕ) : Team → Team → Type 0 where
  created :
      (now fresh fresh_user by : ℕ) (email full_name : String) (role : CompanyRole) {team : Team}
      → Lacks member_id fresh team.members
      → Step company team
          (create_member now fresh fresh_user company by email full_name role team).0
  altered :
      (now i user : ℕ) (d : UpdateData) {team : Team}
      → Step company team (update_member now company i user d team).0
  removed : (i user : ℕ) {team : Team} → Step company team (delete_member company i user team).0
  activated :
      (now user : ℕ) {team : Team}
      → Step company team (activate_company_membership now company user team)
  logged_in :
      (now user : ℕ) {team : Team}
      → Step company team (mark_membership_logged_in now company user team)
  enrolled :
      (now fresh user : ℕ) {team : Team}
      → Lacks member_id fresh team.members
      → Step company team
          (or_before team (insert_member (company_admin now fresh company user) team))

-- A history of operations for any companies.
pub data Reach : Team → Team → Type 0 where
  here : {team : Team} → Reach team team
  further :
      {team at last : Team} (company : ℕ) → Reach team at → Step company at last → Reach team last

pub Step-Change :
    {company : ℕ} {team last : Team}
    → Step company team last
    → Change company team.members last.members
Step-Change {company} (Step.created now fresh fresh_user by email full_name role {team} new) =
    create_member-Change now fresh fresh_user company by email full_name role team new
Step-Change {company} (Step.altered now i user d {team}) =
    update_member-Change now company i user d team
Step-Change {company} (Step.removed i user {team}) = delete_member-Change company i user team
Step-Change {company} (Step.activated now user {team}) = Change.entered now user
Step-Change {company} (Step.logged_in now user {team}) = Change.touched now user
Step-Change {company} (Step.enrolled now fresh user {team} new) =
    enrolled-Change company (company_admin now fresh company user) team new refl

-- Through every history of such steps the identifiers of the members stay
-- unique, and no user gets a second seat in a company.
pub Reach-IsSeated :
    {team last : Team} → Reach team last → IsSeated team.members → IsSeated last.members
Reach-IsSeated Reach.here h = h
Reach-IsSeated (Reach.further {team} {at} {last} company r step) h =
    Change-IsSeated company at.members last.members (Step-Change step) (Reach-IsSeated r h)
