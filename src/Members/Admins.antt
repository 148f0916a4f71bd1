-- ===== src/Members/Admins.antt =====
-- No administrator of a company is removed or loses the role
-- (src/modules/organizations/companyMembersService.js).
use mathlib.Core.List.{Memᴰ}
use be_weavecarbon.Common.{
  ℕ, true, false, ◌≡◌, ◌⊎◌, refl, mem-update_where_hit, sym, ap, ◌∙◌, some, List, arith, All-mem,
  inl, inr, Bool-cases, select_one, select_one_sound, mem-select_one, mem-update_where_miss,
  mem-delete_where_miss, IsUnique-mem,
}
use be_weavecarbon.Members.Team.{
  MemberStatus, Member, Team, admin, active, invited, disabled, same_role, same_status, is_target,
  changed, is_seat, is_invited_seat, activate, touch,
}
use be_weavecarbon.Members.Invariant.{
  IsSeated, Change, Reach, Step-Change, Reach-IsSeated, member_id,
}

-- The target of a change is the only row with its identifier, and no administrator.
admin-not_target :
    (company i : ℕ) (rows : List Member) (target m : Member)
    → IsSeated rows
    → select_one (is_target company i) rows ≡ some target
    → same_role target.role admin ≡ false
    → Memᴰ m rows
    → m.role ≡ admin
    → is_target company i m ≡ false
admin-not_target company i rows target m h e off mem role =
    elim (Bool-cases (is_target company i m)) [
      | inr t ↦ t
      | inl t ↦
          let found : is_target company i target ≡ true =
            select_one_sound (is_target company i) rows target e in
          let ids : m.id ≡ target.id = ground arith in
          let same : m ≡ target =
            All-mem (λ x. member_id x ≡ member_id target → x ≡ target) rows mem
              (IsUnique-mem member_id rows h.ids
                (mem-select_one (is_target company i) rows target e))
              ids in
          absurd (cc (ap (λ r. same_role r admin) (ap (λ (x : Member). x.role) (sym same) ∙ role)))
    ]

-- A member is in the table with its identifier, seat, role and date; the status is the same, or an
-- invitation has become active.
pub record IsKept (m : Member) (rows : List Member) : Type 0 where
  pub row : Member
  pub listed : Memᴰ row rows
  pub same : (row.id ≡ m.id) × (row.company_id ≡ m.company_id) × (row.user_id ≡ m.user_id)
  pub same_role : row.role ≡ m.role
  pub dated : row.created_at ≡ m.created_at
  pub status : (row.status ≡ m.status) ⊎ ((m.status ≡ invited) × (row.status ≡ active))

as_it_was : (m : Member) (rows : List Member) → Memᴰ m rows → IsKept m rows
as_it_was m rows mem = record {
  row = m;
  listed = mem;
  same = (refl, refl, refl);
  same_role = refl;
  dated = refl;
  status = inl refl;
}

Change-keeps_admin :
    (company : ℕ) (rows last : List Member) (m : Member)
    → IsSeated rows
    → Change company rows last
    → m.role ≡ admin
    → Memᴰ m rows
    → IsKept m last
Change-keeps_admin company rows last m h Change.kept role mem = as_it_was m last mem
Change-keeps_admin company rows last m h (Change.joined n new c e) role mem =
    as_it_was m last (Memᴰ.tail mem)
Change-keeps_admin company rows last m h (Change.altered now i d target e off) role mem =
    as_it_was m last (
      mem-update_where_miss (is_target company i) (changed now d) rows
        (admin-not_target company i rows target m h e off mem role) mem)
Change-keeps_admin company rows last m h (Change.left i target e off) role mem = as_it_was m last (
    mem-delete_where_miss (is_target company i) rows
      (admin-not_target company i rows target m h e off mem role) mem)
Change-keeps_admin company rows last m h (Change.entered now user) role mem =
    elim (Bool-cases (is_invited_seat company user m)) [
      | inr t ↦
          as_it_was m last
            (mem-update_where_miss (is_invited_seat company user) (activate now) rows t mem)
      | inl t ↦ record {
        row = activate now m;
        listed = mem-update_where_hit (is_invited_seat company user) (activate now) rows t mem;
        same = (refl, refl, refl);
        same_role = refl;
        dated = refl;
        status = inr (is_invited m.status (ground (arith, t)), refl);
      }
    ]
  where
    is_invited : (x : MemberStatus) → same_status x invited ≡ true → x ≡ invited
    is_invited invited e = refl
    is_invited active e = absurd (cc)
    is_invited disabled e = absurd (cc)
Change-keeps_admin company rows last m h (Change.touched now user) role mem =
    elim (Bool-cases (is_seat company user m)) [
      | inr t ↦
          as_it_was m last (mem-update_where_miss (is_seat company user) (touch now) rows t mem)
      | inl t ↦ record {
        row = touch now m;
        listed = mem-update_where_hit (is_seat company user) (touch now) rows t mem;
        same = (refl, refl, refl);
        same_role = refl;
        dated = refl;
        status = inl refl;
      }
    ]

-- From one table to the next and from there to the last.
IsKept-trans :
    (m : Member) (rows last : List Member) (k : IsKept m rows) → IsKept k.row last → IsKept m last
IsKept-trans m rows last k l = record {
  row = l.row;
  listed = l.listed;
  same = (l.same.0 ∙ k.same.0, l.same.1 ∙ k.same.1, l.same.2 ∙ k.same.2);
  same_role = l.same_role ∙ k.same_role;
  dated = l.dated ∙ k.dated;
  status = joined k.status l.status;
}
  where
    joined :
        (k.row.status ≡ m.status) ⊎ ((m.status ≡ invited) × (k.row.status ≡ active))
        → (l.row.status ≡ k.row.status) ⊎ ((k.row.status ≡ invited) × (l.row.status ≡ active))
        → (l.row.status ≡ m.status) ⊎ ((m.status ≡ invited) × (l.row.status ≡ active))
    joined (inl a) (inl b) = inl (b ∙ a)
    joined (inl a) (inr (b, c)) = inr (sym a ∙ b, c)
    joined (inr (a, c)) (inl b) = inr (a, b ∙ c)
    joined (inr (a, c)) (inr (b, d)) = inr (a, d)

-- Whoever acts for whatever company, an administrator stays one: through every history of the
-- operations on members, of sign-ins, of accepted invitations and of new administrators, from a table
-- with unique identifiers, its row keeps the identifier, the company, the user and the role, and the
-- status but that an invitation may become active.
pub Reach-keeps_admin :
    {team last : Team} (m : Member)
    → Reach team last
    → IsSeated team.members
    → m.role ≡ admin
    → Memᴰ m team.members
    → IsKept m last.members
Reach-keeps_admin {team} m Reach.here h role mem = as_it_was m team.members mem
Reach-keeps_admin m (Reach.further {team} {at} {last} company r step) h role mem =
    let k = Reach-keeps_admin m r h role mem in
    IsKept-trans m at.members last.members k (
      Change-keeps_admin company at.members last.members k.row (Reach-IsSeated r h)
        (Step-Change step) (k.same_role ∙ role) k.listed)
