-- ===== src/Guards/Agreed.antt =====
-- The guards of companies ask the table of members again for what `authenticate` has put on the
-- request (src/middleware/auth.js): both see the same seat.
use be_weavecarbon.Common.{
  ℕ, String, Bool, true, false, ◌≡◌, refl, sym, ap, ◌∙◌, subst, Option, some, arith, not, inl, inr,
  Bool-cases, Option-cases, All-mem, IsUnique, IsUnique-mem, select_one, select_one_sound,
  select_one-All, mem-select_one, if◌then◌else◌,
}
use be_weavecarbon.Members.Team.{
  Member, Team, admin, same_role, is_active_seat, find_active_role, has_active_membership,
}
use be_weavecarbon.Members.Changes.{is_company_admin, is_company_member}
use be_weavecarbon.Members.Invariant.{seat_of}
use be_weavecarbon.Guards.Request.{Request, Claims, CompanyContext}
use be_weavecarbon.Guards.Access.{Passport, passed, refused, World, authenticate}
use be_weavecarbon.Guards.Routes.{
  check_company, company_access_guard, require_company_admin, require_company_member,
}
use be_weavecarbon.Guards.Membership.{IsPlaced, authenticate-IsPlaced}

-- Where a user has one seat in a company, the active seat is the one that was placed.
placed_seat :
    (user : ℕ) (team : Team) (c : CompanyContext) (h : IsPlaced user team c)
    → IsUnique seat_of team.members
    → select_one (is_active_seat c.company_id user) team.members ≡ some h.row
placed_seat user team c h u =
    elim (Option-cases (select_one (is_active_seat c.company_id user) team.members)) [
      | inl n ↦ absurd (
          cc (
            All-mem (λ x. is_active_seat c.company_id user x ≡ false) team.members h.listed
                (select_one-All (is_active_seat c.company_id user) team.members n),
            hit,
          ))
      | inr (m, e) ↦
          e
          ∙ ap some (
              All-mem (λ x. seat_of x ≡ seat_of h.row → x ≡ h.row) team.members
                (mem-select_one (is_active_seat c.company_id user) team.members m e)
                (IsUnique-mem seat_of team.members u h.listed) (same m e))
    ]
  where
    hit : is_active_seat c.company_id user h.row ≡ true
    hit = ground (arith, h.of_company, h.of_user, h.is_active)

    same :
        (m : Member)
        → select_one (is_active_seat c.company_id user) team.members ≡ some m
        → seat_of m ≡ seat_of h.row
    same m e =
        let t = select_one_sound (is_active_seat c.company_id user) team.members m e in
        let own : m.user_id ≡ h.row.user_id = ground (arith, t, h.of_user) in
        let at : m.company_id ≡ h.row.company_id = ground (arith, t, h.of_company) in
        ap (λ x. (x, m.user_id)) at ∙ ap (λ x. (h.row.company_id, x)) own

placed-admin :
    (user : ℕ) (team : Team) (c : CompanyContext)
    → IsPlaced user team c
    → IsUnique seat_of team.members
    → is_company_admin user c.company_id team ≡ same_role c.company_role admin
unfolding is_company_admin find_active_role
placed-admin user team c h u =
    rw (placed_seat user team c h u, is_company_admin) (ap (λ r. same_role r admin) h.of_role)

placed-member :
    (user : ℕ) (team : Team) (c : CompanyContext)
    → IsPlaced user team c
    → IsUnique seat_of team.members
    → is_company_member user c.company_id team ≡ true
unfolding is_company_member has_active_membership
placed-member user team c h u = rw (placed_seat user team c h u, is_company_member) refl

-- What the guard of a company answers, from what its checker says.
guard-answers :
    (checker : ℕ → ℕ → Team → Bool) (team : Team) (p : Passport) (c : CompanyContext) (b : Bool)
    → p.company ≡ some c
    → checker p.user.id c.company_id team ≡ b
    → company_access_guard checker team (some p) ≡ (if b then passed p else refused 403 "FORBIDDEN")
guard-answers checker team p c b at says =
    ap (check_company checker team p) at
    ∙ subst
        (λ x.
          (if not x then refused 403 "FORBIDDEN" else passed p)
          ≡ (if b then passed p else refused 403 "FORBIDDEN"))
        (sym says) (elim (Bool-cases b) [ inl t ↦ rw t refl | inr t ↦ rw t refl ])

-- On the tables that `authenticate` read, where a user has one seat in a company: a request that it
-- passed for a company passes the guard of members there, and the guard of administrators by the role
-- that the request carries.
pub authenticate-agrees :
    (verify : String → Option Claims) (now : ℕ) (r : Request) (w : World) (p : Passport)
    (c : CompanyContext)
    → IsUnique seat_of w.team.members
    → (authenticate verify now r w).1 ≡ passed p
    → p.company ≡ some c
    → (require_company_member w.team (some p) ≡ passed p)
      × (require_company_admin w.team (some p)
          ≡ (if same_role c.company_role admin then passed p else refused 403 "FORBIDDEN"))
unfolding require_company_member require_company_admin
authenticate-agrees verify now r w p c u e at =
    let h : IsPlaced p.user.id w.team c = authenticate-IsPlaced verify now r w p c e at in
    (
      guard-answers is_company_member w.team p c true at (placed-member p.user.id w.team c h u),
      guard-answers is_company_admin w.team p c (same_role c.company_role admin) at
          (placed-admin p.user.id w.team c h u),
    )
