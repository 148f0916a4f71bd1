-- ===== src/Members/Tenants.antt =====
-- An operation for a company touches the members of no other
-- (src/modules/organizations/companyMembersService.js).
use be_weavecarbon.Common.{
  ℕ, Bool, true, false, ◌≡◌, ◌≢◌, refl, List, [], ◌∷◌, arith, inl, inr, Bool-cases, select_where,
  update_where, delete_where,
}
use be_weavecarbon.Members.Team.{
  Member, Team, in_company, is_target, changed, is_seat, is_invited_seat, activate, touch,
}
use be_weavecarbon.Members.Invariant.{Change, Step, Step-Change}

select_where-update_where :
    (p test : Member → Bool) (change : Member → Member) (rows : List Member)
    → ((m : Member) → test m ≡ true → p m ≡ false)
    → ((m : Member) → test m ≡ true → p (change m) ≡ false)
    → select_where p (update_where test change rows) ≡ select_where p rows
select_where-update_where p test change [] before after = refl
select_where-update_where p test change (m ∷ rows) before after = elim (Bool-cases (test m)) [
  | inl t ↦
      rw (t, before m t, after m t) (select_where-update_where p test change rows before after)
  | inr t ↦ rw (t, select_where-update_where p test change rows before after) refl
]

select_where-delete_where :
    (p test : Member → Bool) (rows : List Member)
    → ((m : Member) → test m ≡ true → p m ≡ false)
    → select_where p (delete_where test rows) ≡ select_where p rows
select_where-delete_where p test [] miss = refl
select_where-delete_where p test (m ∷ rows) miss = elim (Bool-cases (test m)) [
  | inl t ↦ rw (t, miss m t) (select_where-delete_where p test rows miss)
  | inr t ↦ rw (t, select_where-delete_where p test rows miss) refl
]

other :
    (company d i : ℕ) (m : Member)
    → d ≢ company
    → is_target company i m ≡ true
    → in_company d m ≡ false
other company d i m apart t = ground arith

other_seat :
    (company d user : ℕ) (m : Member)
    → d ≢ company
    → is_seat company user m ≡ true
    → in_company d m ≡ false
other_seat company d user m apart t = ground arith

-- An operation for a company leaves the members of every other company as they are, in their order.
pub Step-isolated :
    {company : ℕ} {team last : Team} (d : ℕ)
    → d ≢ company
    → Step company team last
    → select_where (in_company d) last.members ≡ select_where (in_company d) team.members
Step-isolated {company} {team} {last} d apart step = isolated (Step-Change step)
  where
    isolated :
        {rows after : List Member}
        → Change company rows after
        → select_where (in_company d) after ≡ select_where (in_company d) rows
    isolated Change.kept = refl
    isolated (Change.joined m new c e) = ground arith
    isolated {rows} (Change.altered now i u target e off) =
        select_where-update_where (in_company d) (is_target company i) (changed now u) rows
          (λ m t. other company d i m apart t) (λ m t. other company d i m apart t)
    isolated {rows} (Change.left i target e off) =
        select_where-delete_where (in_company d) (is_target company i) rows
          (λ m t. other company d i m apart t)
    isolated {rows} (Change.entered now user) =
        select_where-update_where (in_company d) (is_invited_seat company user) (activate now) rows
          (λ m t. other_seat company d user m apart (ground (arith, t)))
          (λ m t. other_seat company d user m apart (ground (arith, t)))
    isolated {rows} (Change.touched now user) =
        select_where-update_where (in_company d) (is_seat company user) (touch now) rows
          (λ m t. other_seat company d user m apart t) (λ m t. other_seat company d user m apart t)
