-- ===== src/Members/Tests.antt =====
-- Runs of the operations on members on a small company.
use mathlib.Core.List.{Memᴰ}
use be_weavecarbon.Common.{ℕ, ◌≡◌, ◌≢◌, refl, ap, none, some, [], ◌∷◌, arith, select_where}
use be_weavecarbon.Members.Team.{
  Member, Team, UpdateData, admin, member, viewer, active, disabled, in_company, find_company,
  find_membership_by_email, insert_member, new_member, find_member_for_mutation, update_member_rows,
  delete_member_rows,
}
use be_weavecarbon.Members.Changes.{
  done, failed, create_member, update_member, delete_member, user_by_email, create_invited_user,
}
use be_weavecarbon.Members.Invariant.{IsSeated, Step, Reach}
use be_weavecarbon.Members.Admins.{IsKept, Reach-keeps_admin}
use be_weavecarbon.Members.Tenants.{Step-isolated}
use be_weavecarbon.Members.Access.{IsShut, update_member-IsShut}

abbrev root : Member
root = record {
  id = 1;
  company_id = 5;
  user_id = 11;
  role = admin;
  status = active;
  invited_by = none;
  created_at = 0;
  updated_at = 0;
}

abbrev helper : Member
helper = record root { id = 2; user_id = 12; role = member }

abbrev foreign : Member
foreign = record root { id = 3; company_id = 6; user_id = 12; role = viewer }

abbrev team : Team
team = record {
  companies = (record { id = 5; name = "A" }) ∷ [];
  users = (record { id = 12; email = "h@a"; full_name = "H"; roles = "b2b" ∷ [] }) ∷ [];
  profiles = [];
  members = root ∷ helper ∷ foreign ∷ [];
}

abbrev turn_off : UpdateData
turn_off = record { role = none; status = some disabled }

abbrev pair : ℕ → ℕ → ℕ × ℕ
pair a b = (a, b)

distinct_seats : {a b c d : ℕ} → a ≢ c → pair a b ≢ pair c d
distinct_seats n e = n (ap (λ (p : ℕ × ℕ). p.0) e)

distinct_users : {a b c d : ℕ} → b ≢ d → pair a b ≢ pair c d
distinct_users n e = n (ap (λ (p : ℕ × ℕ). p.1) e)

team-IsSeated : IsSeated team.members
team-IsSeated = record {
  ids = (((λ e. omega arith), ((λ e. omega arith), tt)), (((λ e. omega arith), tt), (tt, tt)));
  seats = (
    (distinct_users (λ e. omega arith), (distinct_seats (λ e. omega arith), tt)),
    ((distinct_seats (λ e. omega arith), tt), (tt, tt)),
  );
}

abbrev history : Team
history = (delete_member 5 2 11 (update_member 9 5 2 11 turn_off team).0).0

history_reached : Reach team history
history_reached =
    Reach.further 5 (Reach.further 5 Reach.here (Step.altered 9 2 11 turn_off)) (Step.removed 2 11)

Reach-keeps_admin_example : IsKept root history.members
Reach-keeps_admin_example =
    Reach-keeps_admin root history_reached team-IsSeated refl (Memᴰ.head refl)

Step-isolated_example :
    select_where (in_company 6) (delete_member 5 2 11 team).0.members
    ≡ select_where (in_company 6) team.members
Step-isolated_example = Step-isolated 6 (λ e. omega arith) (Step.removed 2 11)

updates :
    (update_member 9 5 2 11 turn_off team).1
    ≡ done (record helper { status = disabled; updated_at = 9 }) ("wc_member_disabled" ∷ [])
unfolding update_member find_member_for_mutation update_member_rows
updates = refl

update_member-IsShut_example : IsShut 5 12 (update_member 9 5 2 11 turn_off team).0
update_member-IsShut_example =
    update_member-IsShut 9 5 2 11 turn_off team
      (record helper { status = disabled; updated_at = 9 }) ("wc_member_disabled" ∷ [])
      team-IsSeated refl updates

deletes : (delete_member 5 2 11 team).1 ≡ done helper ("wc_member_removed" ∷ [])
unfolding delete_member find_member_for_mutation delete_member_rows
deletes = refl

protects_admin : (delete_member 5 1 12 team).1 ≡ failed "ADMIN_MEMBER_PROTECTED"
unfolding delete_member find_member_for_mutation delete_member_rows
protects_admin = refl

creates :
    (create_member 9 4 13 5 11 "n@a" "N" viewer team).1
    ≡ done (new_member 9 4 5 13 viewer 11) ("wc_member_invited" ∷ [])
unfolding create_member create_invited_user find_company find_membership_by_email user_by_email
    insert_member
creates = refl
