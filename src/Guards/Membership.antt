-- ===== src/Guards/Membership.antt =====
-- In which company a request acts (`resolveCompanyContext` of src/middleware/auth.js).
use mathlib.Core.List.{Memᴰ}
use be_weavecarbon.Common.{
  ℕ, String, Bool, true, ◌≡◌, refl, sym, subst, ◌∙◌, Option, none, some, List, [], ◌∷◌, arith, inl,
  inr, Bool-cases, Option-cases, if_intro, select_one, select_one_sound, mem-select_one, some_inj,
}
use be_weavecarbon.Members.Team.{Member, User, Team, active, same_status, is_seat}
use be_weavecarbon.Guards.Request.{
  Request, Claims, CompanyContext, has_any_role, resolve_company_context, company_membership,
  primary_membership, primary_of, is_listed, goes_first, context_of,
}
use be_weavecarbon.Guards.Access.{Passport, passed, World, authenticate}
use be_weavecarbon.Guards.Passage.{IsAdmitted, authenticate-IsAdmitted}

-- A row that gives a user its place in a company.
pub record IsPlaced (user : ℕ) (team : Team) (c : CompanyContext) : Type 0 where
  pub row : Member
  pub listed : Memᴰ row team.members
  pub of_user : row.user_id ≡ user
  pub of_company : row.company_id ≡ c.company_id
  pub of_role : row.role ≡ c.company_role
  pub is_active : same_status row.status active ≡ true

primary_of-listed :
    (test : Member → Bool) (rows : List Member) (m : Member)
    → primary_of test rows ≡ some m
    → Memᴰ m rows × (test m ≡ true)
primary_of-listed test [] m e = absurd (cc)
primary_of-listed test (x ∷ rows) m e = elim (Bool-cases (test x)) [
  | inr t ↦ let h = primary_of-listed test rows m (rw t at e) in (Memᴰ.tail h.0, h.1)
  | inl t ↦ elim (Option-cases (primary_of test rows)) [
    | inl n ↦
        let same : x ≡ m = some_inj (rw (t, n) at e) in
        (Memᴰ.head (sym same), subst (λ y. test y ≡ true) same t)
    | inr (y, n) ↦
        let h = primary_of-listed test rows y n in
        subst (λ z. Memᴰ z (x ∷ rows) × (test z ≡ true)) (some_inj (rw (t, n) at e))
          (if_intro (λ z. Memᴰ z (x ∷ rows) × (test z ≡ true)) (goes_first x y)
            (λ _. (Memᴰ.head refl, t)) (λ _. (Memᴰ.tail h.0, h.1)))
  ]
]

context_of-IsPlaced :
    (user : ℕ) (team : Team) (m : Member) (c : CompanyContext)
    → Memᴰ m team.members
    → m.user_id ≡ user
    → context_of (some m) ≡ some c
    → IsPlaced user team c
context_of-IsPlaced user team m c mem own =
    if_intro (λ (o : Option CompanyContext). o ≡ some c → IsPlaced user team c)
      (same_status m.status active)
      (λ t e. subst (IsPlaced user team) (some_inj e) (record {
        row = m;
        listed = mem;
        of_user = own;
        of_company = refl;
        of_role = refl;
        is_active = t;
      }))
      (λ _ e. absurd (cc))

selected-IsPlaced :
    (user : ℕ) (claimed : Option ℕ) (team : Team) (c : CompanyContext)
    → elim claimed as (λ _. Option CompanyContext) [
      | some company ↦ context_of (company_membership company user team)
      | none ↦ context_of (primary_membership user team)
    ]
      ≡ some c
    → IsPlaced user team c
unfolding company_membership primary_membership
selected-IsPlaced user (some company) team c e =
    elim (Option-cases (select_one (is_seat company user) team.members)) [
      | inl n ↦ absurd (cc (rw n at e))
      | inr (m, n) ↦
          let t : is_seat company user m ≡ true =
            select_one_sound (is_seat company user) team.members m n in
          context_of-IsPlaced user team m c (mem-select_one (is_seat company user) team.members m n)
            (ground arith) (rw n at e)
    ]
selected-IsPlaced user none team c e =
    elim (Option-cases (primary_of (is_listed user team) team.members)) [
      | inl n ↦ absurd (cc (rw n at e))
      | inr (m, n) ↦
          let h = primary_of-listed (is_listed user team) team.members m n in
          context_of-IsPlaced user team m c h.0 (own m h.1) (rw n at e)
    ]
  where
    own : (m : Member) → is_listed user team m ≡ true → m.user_id ≡ user
    own m t = ground arith

resolve-IsPlaced :
    (user : User) (claimed : Option ℕ) (team : Team) (c : CompanyContext)
    → resolve_company_context user claimed team ≡ some c
    → IsPlaced user.id team c
unfolding resolve_company_context
resolve-IsPlaced user claimed team c =
    if_intro (λ (o : Option CompanyContext). o ≡ some c → IsPlaced user.id team c)
      (has_any_role user.roles ("b2b" ∷ "admin" ∷ []))
      (λ _. selected-IsPlaced user.id claimed team c) (λ _ e. absurd (cc))

-- A request that passes acts for a company only where its user has an active seat there, in the role
-- of that seat, whatever company the token names.
pub authenticate-IsPlaced :
    (verify : String → Option Claims) (now : ℕ) (r : Request) (w : World) (p : Passport)
    (c : CompanyContext)
    → (authenticate verify now r w).1 ≡ passed p
    → p.company ≡ some c
    → IsPlaced p.user.id w.team c
authenticate-IsPlaced verify now r w p c e at =
    let h : IsAdmitted verify now r w p = authenticate-IsAdmitted verify now r w p e in
    resolve-IsPlaced p.user h.claims.company_id w.team c (sym h.company_of ∙ at)
