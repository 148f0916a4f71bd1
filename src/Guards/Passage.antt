-- ===== src/Guards/Passage.antt =====
-- What a request that passes `authenticate` of src/middleware/auth.js has shown.
use be_weavecarbon.Common.{
  ℕ, String, Bool, false, ◌≡◌, refl, sym, ap, subst, Option, none, some, arith, not, ◌&&◌, ◌||◌,
  if_intro, select_one, str_eq,
}
use be_weavecarbon.Members.Team.{User, has_id}
use be_weavecarbon.Mfa.Factors.{get_challenge_state}
use be_weavecarbon.Subscriptions.Plans.{Account, Snapshot, get_subscription_snapshot, is_trial}
use be_weavecarbon.Guards.Request.{Request, Claims, get_bearer_token, resolve_company_context}
use be_weavecarbon.Guards.Access.{
  Passport, Verdict, passed, refused, rejected, World, is_denied_mutation, checks_plan_lock,
  checks_trial, on_snapshot, company_of, judge_plan, enforce_subscription_access,
  enforce_tenant_mutation_access, authenticate_user, authenticate_claims, authenticate_token,
  authenticate,
}

passed_inj : {p q : Passport} → passed p ≡ passed q → p ≡ q
passed_inj {p} e = ap (λ v. elim v [ passed x ↦ x | refused _ _ ↦ p | rejected ↦ p ]) e

-- Whether the plan of the company is tested at all.
abbrev pub tests_plan : Request → Passport → Bool
tests_plan r p = checks_plan_lock r p || checks_trial r p

-- What the test of a plan has found, on the account of the company: no account is untested only, a
-- tested one is not locked, and a report is not asked for on a trial.
abbrev pub Cleared : ℕ → Request → Passport → Option Account → Type 0
Cleared now r p none = tests_plan r p ≡ false
Cleared now r p (some a) =
    ((tests_plan r p && (get_subscription_snapshot now a).1.features_locked) ≡ false)
    × ((checks_trial r p && is_trial (get_subscription_snapshot now a).1.current_plan) ≡ false)

abbrev pub Unlocked : ℕ → Request → World → Passport → Type 0
Unlocked now r w p = Cleared now r p (w.accounts (company_of p))

record Enforced (now : ℕ) (r : Request) (w : World) (p q : Passport) : Type 0 where
  same : p ≡ q
  unlocked : Unlocked now r w p

on_snapshot-unlocked :
    (r : Request) (p q : Passport) (s : Snapshot)
    → on_snapshot r p s ≡ passed q
    → (p ≡ q)
      × ((checks_trial r p && is_trial s.current_plan) ≡ false)
      × (s.features_locked ≡ false)
on_snapshot-unlocked r p q s =
    if_intro P (checks_trial r p && is_trial s.current_plan) (λ _ e. absurd (cc))
      (λ u. if_intro P s.features_locked (λ _ e. absurd (cc)) (λ t e. (passed_inj e, u, t)))
  where
    P : Verdict → Type 0
    P v =
        v ≡ passed q
        → (p ≡ q)
          × ((checks_trial r p && is_trial s.current_plan) ≡ false)
          × (s.features_locked ≡ false)

and_false : (a b : Bool) → b ≡ false → (a && b) ≡ false
and_false a b e = ground arith

judge_plan-Enforced :
    (now : ℕ) (r : Request) (p q : Passport) (w : World) (o : Option Account)
    → w.accounts (company_of p) ≡ o
    → (judge_plan now r p w o).1 ≡ passed q
    → Enforced now r w p q
judge_plan-Enforced now r p q w none at e = absurd (cc)
judge_plan-Enforced now r p q w (some a) at e =
    let h = on_snapshot-unlocked r p q (get_subscription_snapshot now a).1 e in
    record {
      same = h.0;
      unlocked =
          subst (Cleared now r p) (sym at) (
            and_false (tests_plan r p) (get_subscription_snapshot now a).1.features_locked h.2,
            h.1,
          );
    }

untested :
    (now : ℕ) (r : Request) (p : Passport) (o : Option Account)
    → checks_plan_lock r p ≡ false
    → checks_trial r p ≡ false
    → Cleared now r p o
untested now r p none l t = rw (l, t) refl
untested now r p (some a) l t = (rw (l, t) refl, rw t refl)

enforce_subscription-Enforced :
    (now : ℕ) (r : Request) (p q : Passport) (w : World)
    → (enforce_subscription_access now r p w).1 ≡ passed q
    → Enforced now r w p q
unfolding enforce_subscription_access
enforce_subscription-Enforced now r p q w =
    if_intro (λ (v : World × Verdict). v.1 ≡ passed q → Enforced now r w p q)
      (not (checks_plan_lock r p) && not (checks_trial r p))
      (λ t e. record {
        same = passed_inj e;
        unlocked = untested now r p (w.accounts (company_of p)) (ground arith) (ground arith);
      })
      (λ _. judge_plan-Enforced now r p q w (w.accounts (company_of p)) refl)

-- What is shown by a request that passes: a token that is verified, of a user with its second factor
-- where it has one; the company in which the user may act and may write what the request writes; and
-- a plan that is not locked, and no trial where a report is asked for, where the plan is tested.
pub record IsAdmitted (verify : String → Option Claims) (now : ℕ) (r : Request) (w : World)
    (p : Passport) : Type 0 where
  pub token : String
  pub claims : Claims
  pub has_token : get_bearer_token r ≡ some token
  pub verified : verify token ≡ some claims
  pub found : select_one (has_id claims.sub) w.team.users ≡ some p.user
  pub factor :
      ((get_challenge_state claims.sub w.factors).enabled && not claims.mfa_verified) ≡ false
  pub company_of : p.company ≡ resolve_company_context p.user claims.company_id w.team
  pub permitted : is_denied_mutation r p.company ≡ false
  pub unlocked : Unlocked now r w p

module _ (verify : String → Option Claims) (now : ℕ) (r : Request) (w : World) (p : Passport) where
  abbrev Shown : World × Verdict → Type 0
  Shown v = v.1 ≡ passed p → IsAdmitted verify now r w p

  user-IsAdmitted :
      (token : String) (claims : Claims) (user : User)
      → get_bearer_token r ≡ some token
      → verify token ≡ some claims
      → select_one (has_id claims.sub) w.team.users ≡ some user
      → Shown (authenticate_user now r claims w (some user))
  unfolding enforce_tenant_mutation_access
  user-IsAdmitted token claims user t c u =
      if_intro Shown ((get_challenge_state claims.sub w.factors).enabled && not claims.mfa_verified)
        (λ _ e. absurd (cc))
        (λ factor.
          if_intro Shown (is_denied_mutation r pass.company) (λ _ e. absurd (cc))
            (λ allowed e.
              let h : Enforced now r w pass p = enforce_subscription-Enforced now r pass p w e in
              subst (IsAdmitted verify now r w) h.same (record {
                token = token;
                claims = claims;
                has_token = t;
                verified = c;
                found = u;
                factor = factor;
                company_of = refl;
                permitted = allowed;
                unlocked = h.unlocked;
              })))
    where
      pass : Passport
      pass = record { user = user; company = resolve_company_context user claims.company_id w.team }

  found-IsAdmitted :
      (token : String) (claims : Claims) (o : Option User)
      → get_bearer_token r ≡ some token
      → verify token ≡ some claims
      → select_one (has_id claims.sub) w.team.users ≡ o
      → Shown (authenticate_user now r claims w o)
  found-IsAdmitted token claims none t c u = λ e. absurd (cc)
  found-IsAdmitted token claims (some user) t c u = user-IsAdmitted token claims user t c u

  claims-IsAdmitted :
      (token : String) (o : Option Claims)
      → get_bearer_token r ≡ some token
      → verify token ≡ o
      → Shown (authenticate_claims now r w o)
  claims-IsAdmitted token none t c = λ e. absurd (cc)
  claims-IsAdmitted token (some claims) t c =
      found-IsAdmitted token claims (select_one (has_id claims.sub) w.team.users) t c refl

  token-IsAdmitted :
      (o : Option String) → get_bearer_token r ≡ o → Shown (authenticate_token verify now r w o)
  token-IsAdmitted none t = λ e. absurd (cc)
  token-IsAdmitted (some token) t =
      if_intro Shown (str_eq token "") (λ _ e. absurd (cc))
        (λ _. claims-IsAdmitted token (verify token) t refl)

  pub authenticate-IsAdmitted :
      (authenticate verify now r w).1 ≡ passed p → IsAdmitted verify now r w p
  unfolding authenticate
  authenticate-IsAdmitted = token-IsAdmitted (get_bearer_token r) refl
