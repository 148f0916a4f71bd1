-- ===== src/Members/Access.antt =====
-- Who counts as a member or an administrator after an invitation, an update or a removal
-- (src/modules/organizations/companyMembersService.js), and the counts of members.
use be_weavecarbon.Common.{
  ℕ, ◌+◌, ◌==◌, String, Bool, true, false, ◌≡◌, refl, ap, subst, none, some, List, [], ◌∷◌, arith,
  not, ◌&&◌, if◌then◌else◌, All, All-map, is_some, inl, inr, Bool-cases, Option-cases, if_intro,
  option_intro, select_one, select_one-none, select_one-All, select_one_sound, mem-select_one,
  count_where, All-update_where_to, All-delete_where_to, IsUnique-mem, any, str_eq,
}
use be_weavecarbon.Members.Team.{
  CompanyRole, MemberStatus, Member, Team, UpdateData, active, invited, disabled, admin, same_role,
  same_status, find_company, find_membership_by_email, attach_profile_to_company, insert_member,
  new_member, find_member_for_mutation, update_member_rows, delete_member_rows, is_target, is_seat,
  is_active_seat, changed, find_active_role, has_active_membership, get_member_meta, with_status,
  in_company,
}
use be_weavecarbon.Members.Changes.{
  Outcome, done, failed, user_by_email, create_invited_user, seat, with_role, create_member,
  update_member, delete_member, is_company_admin, is_company_member,
}
use be_weavecarbon.Members.Invariant.{IsSeated, seat_of, with_role-members}

done_inj : {m n : Member} {es fs : List String} → done m es ≡ done n fs → m ≡ n
done_inj {m} e = ap (λ o. elim o [ done x _ ↦ x | failed _ ↦ m ]) e

-- The user has no access to the company.
pub record IsShut (company user : ℕ) (team : Team) : Type 0 where
  pub no_member : is_company_member user company team ≡ false
  pub no_admin : is_company_admin user company team ≡ false

IsShut-rows :
    (company user : ℕ) (team : Team)
    → All (λ m. is_active_seat company user m ≡ false) team.members
    → IsShut company user team
unfolding is_company_member has_active_membership is_company_admin find_active_role
IsShut-rows company user team h =
    let e : select_one (is_active_seat company user) team.members ≡ none =
      select_one-none (is_active_seat company user) team.members h in
    record { no_member = rw (e, is_company_member) refl; no_admin = rw (e, is_company_admin) refl }

-- Among seated rows the seat of the target is the target.
target_only :
    (company i : ℕ) (rows : List Member) (target : Member)
    → IsSeated rows
    → select_one (is_target company i) rows ≡ some target
    → All (λ x. seat_of x ≡ seat_of target → x ≡ target) rows
target_only company i rows target h e =
    IsUnique-mem seat_of rows h.seats (mem-select_one (is_target company i) rows target e)

-- A row that is not the target has no seat of the user of the target.
miss_seat :
    (company i : ℕ) (target x : Member)
    → is_target company i target ≡ true
    → is_target company i x ≡ false
    → (seat_of x ≡ seat_of target → x ≡ target)
    → is_active_seat company target.user_id x ≡ false
miss_seat company i target x hit miss only =
    elim (Bool-cases (is_active_seat company target.user_id x)) [
      | inr t ↦ t
      | inl t ↦
          let c : x.company_id ≡ target.company_id = ground arith in
          let u : x.user_id ≡ target.user_id = ground arith in
          let same : x ≡ target = only (rw (c, u) refl) in
          absurd (cc (ap (is_target company i) same))
    ]

update_rows-IsShut :
    (now company i : ℕ) (d : UpdateData) (team : Team) (target : Member)
    → IsSeated team.members
    → d.status ≡ some disabled
    → select_one (is_target company i) team.members ≡ some target
    → IsShut company target.user_id (update_member_rows now company i d team).0
unfolding update_member_rows
update_rows-IsShut now company i d team target h off e =
    IsShut-rows company target.user_id (update_member_rows now company i d team).0 (
      All-update_where_to (λ x. seat_of x ≡ seat_of target → x ≡ target)
        (λ x. is_active_seat company target.user_id x ≡ false) (is_target company i) (changed now d)
        team.members (λ x t only. rw off (ground arith))
        (λ x t only.
          miss_seat company i target x
            (select_one_sound (is_target company i) team.members target e) t only)
        (target_only company i team.members target h e))

delete_rows-IsShut :
    (company i : ℕ) (team : Team) (target : Member)
    → IsSeated team.members
    → select_one (is_target company i) team.members ≡ some target
    → IsShut company target.user_id (delete_member_rows company i team).0
unfolding delete_member_rows
delete_rows-IsShut company i team target h e =
    IsShut-rows company target.user_id (delete_member_rows company i team).0 (
      All-delete_where_to (λ x. seat_of x ≡ seat_of target → x ≡ target) (is_target company i)
        (λ x. is_active_seat company target.user_id x ≡ false) team.members
        (λ x t only.
          miss_seat company i target x
            (select_one_sound (is_target company i) team.members target e) t only)
        (target_only company i team.members target h e))

-- An update that sets a member to disabled takes the access to the company from its user, where
-- identifiers and seats are unique.
pub update_member-IsShut :
    (now company i user : ℕ) (d : UpdateData) (team : Team) (m : Member) (events : List String)
    → IsSeated team.members
    → d.status ≡ some disabled
    → (update_member now company i user d team).1 ≡ done m events
    → IsShut company m.user_id (update_member now company i user d team).0
unfolding update_member find_member_for_mutation update_member_rows
update_member-IsShut now company i user d team m events h off =
    option_intro Shut (find_member_for_mutation company i team) (λ _ e. absurd (cc))
      (λ target found.
        if_intro Shut (target.user_id == user) (λ _ e. absurd (cc))
          (λ _.
            if_intro Shut (same_role target.role admin) (λ _ e. absurd (cc))
              (λ _.
                if_intro Shut (not (is_some d.role) && not (is_some d.status)) (λ _ e. absurd (cc))
                  (λ _. rw found (λ e.
                    subst
                      (λ (x : Member).
                        IsShut company x.user_id (update_member_rows now company i d team).0)
                      (done_inj e) (update_rows-IsShut now company i d team target h off found))))))
  where
    Shut : Team × Outcome Member → Type 0
    Shut r = r.1 ≡ done m events → IsShut company m.user_id r.0

-- A removal takes the access to the company from the user of the member that it answers with, where
-- identifiers and seats are unique.
pub delete_member-IsShut :
    (company i user : ℕ) (team : Team) (m : Member) (events : List String)
    → IsSeated team.members
    → (delete_member company i user team).1 ≡ done m events
    → IsShut company m.user_id (delete_member company i user team).0
unfolding delete_member find_member_for_mutation delete_member_rows
delete_member-IsShut company i user team m events h =
    option_intro Shut (find_member_for_mutation company i team) (λ _ e. absurd (cc))
      (λ target found.
        if_intro Shut (target.user_id == user) (λ _ e. absurd (cc))
          (λ _.
            if_intro Shut (same_role target.role admin) (λ _ e. absurd (cc))
              (λ _. rw found (λ e.
                subst
                  (λ (x : Member). IsShut company x.user_id (delete_member_rows company i team).0)
                  (done_inj e) (delete_rows-IsShut company i team target h found)))))
  where
    Shut : Team × Outcome Member → Type 0
    Shut r = r.1 ≡ done m events → IsShut company m.user_id r.0

-- The new member of an invitation that succeeds: listed, pending, and without access.
pub record IsInvited (company : ℕ) (role : CompanyRole) (before : Team) (m : Member) (last : Team)
    : Type 0 where
  pub placed : last.members ≡ m ∷ before.members
  pub company_of : m.company_id ≡ company
  pub role_of : m.role ≡ role
  pub pending : m.status ≡ invited
  pub shut : IsShut company m.user_id last

seat-IsInvited :
    (now fresh company user by : ℕ) (role : CompanyRole) (team at : Team) (m : Member)
    (events : List String)
    → at.members ≡ team.members
    → (seat team (new_member now fresh company user role by) at).1 ≡ done m events
    → IsInvited company role team m (seat team (new_member now fresh company user role by) at).0
unfolding insert_member
seat-IsInvited now fresh company user by role team at m events same =
    elim (Option-cases (select_one (is_seat company user) at.members)) [
      | inr (old, e) ↦ rw (e, insert_member) (λ d. absurd (cc))
      | inl e ↦
          rw (e, insert_member)
            (λ d.
              let row : Member = new_member now fresh company user role by in
              let last : Team = record at { members = row ∷ at.members } in
              subst (λ (x : Member). IsInvited company role team x last) (done_inj d)
                (record {
                  placed = ap (λ rows. row ∷ rows) same;
                  company_of = refl;
                  role_of = refl;
                  pending = refl;
                  shut = IsShut-rows company user last (
                    ground arith,
                    All-map _ (λ x. is_active_seat company user x ≡ false) at.members
                        (λ x t. ground arith) (select_one-All (is_seat company user) at.members e),
                  );
                }))
    ]

-- An invitation that succeeds adds one member of the company with the role asked for, who has no
-- access before the invitation is accepted.
pub create_member-IsInvited :
    (now fresh fresh_user company by : ℕ) (email full_name : String) (role : CompanyRole)
    (team : Team) (m : Member) (events : List String)
    → (create_member now fresh fresh_user company by email full_name role team).1 ≡ done m events
    → IsInvited company role team m
        (create_member now fresh fresh_user company by email full_name role team).0
unfolding create_member create_invited_user attach_profile_to_company
create_member-IsInvited now fresh fresh_user company by email full_name role team m events =
    if_intro Made (not (is_some (find_company company team))) (λ _ e. absurd (cc))
      (λ _.
        if_intro Made (is_some (find_membership_by_email company email team)) (λ _ e. absurd (cc))
          (λ _.
            option_intro Made (user_by_email email team)
              (λ _.
                seat-IsInvited now fresh company fresh_user by role team
                  (create_invited_user fresh_user email full_name company team) m events refl)
              (λ user _.
                if_intro Made (any (str_eq "b2c") user.roles) (λ _ e. absurd (cc))
                  (λ _.
                    seat-IsInvited now fresh company user.id by role team
                      (with_role user.id (attach_profile_to_company company user.id team)) m events
                      (with_role-members user.id
                        (attach_profile_to_company company user.id team))))))
  where
    Made : Team × Outcome Member → Type 0
    Made r = r.1 ≡ done m events → IsInvited company role team m r.0

one_status :
    (s : MemberStatus) (b : Bool)
    → (if b && same_status s active then 1 else 0)
        + (if b && same_status s invited then 1 else 0)
        + (if b && same_status s disabled then 1 else 0)
      ≡ (if b then 1 else 0)
one_status active true = refl
one_status invited true = refl
one_status disabled true = refl
one_status active false = refl
one_status invited false = refl
one_status disabled false = refl

-- The counts by status add up to the total of a company.
pub get_member_meta-total :
    (company : ℕ) (team : Team)
    → (get_member_meta company team).active
        + (get_member_meta company team).invited
        + (get_member_meta company team).disabled
      ≡ (get_member_meta company team).total
unfolding get_member_meta
get_member_meta-total company team = adds team.members
  where
    adds :
        (rows : List Member)
        → count_where (with_status company active) rows
            + count_where (with_status company invited) rows
            + count_where (with_status company disabled) rows
          ≡ count_where (in_company company) rows
    adds [] = refl
    adds (m ∷ rows) = omega (arith, one_status m.status (in_company company m), adds rows)
