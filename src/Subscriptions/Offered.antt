-- ===== src/Subscriptions/Offered.antt =====
-- What `upgradeSubscription` of src/services/subscriptionService.js offers.
use be_weavecarbon.Common.{
  ℕ, Bool, true, false, not, ◌&&◌, ◌≡◌, refl, sym, ap, ◌∙◌, subst, Option, some, ◌∷◌, ltb, leb,
  arith, if_intro, Option-cases, Bool-cases, inl, inr,
}
use be_weavecarbon.Members.Team.{
  CompanyRole, Team, admin, member, viewer, same_role, find_active_role,
}
use be_weavecarbon.Subscriptions.Plans.{
  PricingPlan, Account, Snapshot, trial, standard, standard_20, standard_35, standard_50,
  export_plan, normalize_plan_id, is_standard_plan, resolve_plan_rank, get_subscription_snapshot,
}
use be_weavecarbon.Subscriptions.Payments.{
  PaymentSession, Books, Outcome, done, set_account, purchased_sku_increment,
}
use be_weavecarbon.Subscriptions.Upgrade.{
  Checkout, payment, resolve_standard_package, package_of, new_session, session_of, insert_session,
  is_export, is_addon, is_same_rank, offer, upgrade_subscription,
}

-- A trial cannot be bought: a company on trial has it already, and every other plan is higher.
trial_refused :
    (current : PricingPlan)
    → (is_same_rank trial current && not (is_addon trial current)) ≡ false
    → ltb (resolve_plan_rank trial) (resolve_plan_rank current) ≡ true
unfolding resolve_plan_rank is_standard_plan normalize_plan_id
trial_refused trial e = absurd (cc)
trial_refused standard e = refl
trial_refused standard_20 e = refl
trial_refused standard_35 e = refl
trial_refused standard_50 e = refl
trial_refused export_plan e = refl

standard_only :
    (target current : PricingPlan)
    → (is_same_rank target current && not (is_addon target current)) ≡ false
    → ltb (resolve_plan_rank target) (resolve_plan_rank current) ≡ false
    → is_export target ≡ false
    → is_standard_plan target ≡ true
unfolding is_standard_plan normalize_plan_id
standard_only trial current e f g = absurd (cc (trial_refused current e, f))
standard_only standard current e f g = refl
standard_only standard_20 current e f g = refl
standard_only standard_35 current e f g = refl
standard_only standard_50 current e f g = refl
standard_only export_plan current e f g = absurd (cc)

-- A payment adds the increment of the package whose price was asked.
increment_lem :
    (now fresh company user : ℕ) (sku : Option ℕ) (n : ℕ)
    → purchased_sku_increment (
        new_session now fresh company user standard
          (resolve_standard_package n).price_monthly
          (some (resolve_standard_package n).sku_increment)
          sku)
      ≡ (resolve_standard_package n).sku_increment
unfolding purchased_sku_increment resolve_standard_package
increment_lem now fresh company user sku n = elim (Bool-cases (leb 50 n)) [
  | inl t ↦ rw t refl
  | inr t ↦ elim (Bool-cases (leb 35 n)) [ inl u ↦ rw (t, u) refl | inr u ↦ rw (t, u) refl ]
]

same_role_admin : (r : CompanyRole) → same_role r admin ≡ true → r ≡ admin
same_role_admin admin e = refl
same_role_admin member e = absurd (cc)
same_role_admin viewer e = absurd (cc)

pub record IsOffered (now fresh company user : ℕ) (target : PricingPlan) (sku : Option ℕ)
    (team : Team) (b : Books) (s : PaymentSession) (last : Books) : Type 0 where
  pub by_admin : find_active_role company user team ≡ some admin
  pub is_standard : is_standard_plan target ≡ true
  pub terms :
      s
      ≡ new_session now fresh company user standard
          (package_of sku target).price_monthly
          (some (package_of sku target).sku_increment)
          sku
  pub buys : purchased_sku_increment s ≡ (package_of sku target).sku_increment
  pub inserted : last.sessions ≡ s ∷ b.sessions
  pub same_events : last.events ≡ b.events
  pub snapshot_only :
      last.accounts
      ≡ (set_account company (get_subscription_snapshot now (b.accounts company)).0 b).accounts

module _ (now fresh company user : ℕ) (target : PricingPlan) (sku : Option ℕ) (team : Team)
    (b : Books) (s : PaymentSession) where
  -- A result, when it is the offer of the session.
  abbrev WhenOffered : Books × Outcome Checkout → Type 0
  WhenOffered (last, done (payment x)) =
      x ≡ s → IsOffered now fresh company user target sku team b s last
  WhenOffered _ = Unit

  session-IsOffered :
      (a : Account)
      → a ≡ (get_subscription_snapshot now (b.accounts company)).0
      → find_active_role company user team ≡ some admin
      → is_standard_plan target ≡ true
      → session_of now fresh company user target sku ≡ s
      → IsOffered now fresh company user target sku team b s
          (insert_session (session_of now fresh company user target sku) (set_account company a b))
  session-IsOffered a e role u same = record {
    by_admin = role;
    is_standard = u;
    terms = terms;
    buys =
        subst (λ x. purchased_sku_increment x ≡ (package_of sku target).sku_increment) (sym terms)
          (increment_lem now fresh company user sku _);
    inserted = ap (λ x. x ∷ b.sessions) same;
    same_events = refl;
    snapshot_only = ap (λ x. (set_account company x b).accounts) e;
  }
    where
      terms :
          s
          ≡ new_session now fresh company user standard
              (package_of sku target).price_monthly
              (some (package_of sku target).sku_increment)
              sku
      terms = sym same ∙ rw u refl

  offer-IsOffered :
      (monthly : Bool) (a : Account) (snapshot : Snapshot)
      → a ≡ (get_subscription_snapshot now (b.accounts company)).0
      → find_active_role company user team ≡ some admin
      → WhenOffered
          (offer now fresh company user target sku monthly snapshot (set_account company a b))
  offer-IsOffered monthly a snapshot e role =
      if_intro WhenOffered
        (is_same_rank target snapshot.current_plan && not (is_addon target snapshot.current_plan))
        (λ _. tt)
        (λ t.
          if_intro WhenOffered
            (ltb (resolve_plan_rank target) (resolve_plan_rank snapshot.current_plan)) (λ _. tt)
            (λ u.
              if_intro WhenOffered (is_export target) (λ _. tt)
                (λ v.
                  if_intro WhenOffered (not monthly) (λ _. tt)
                    (λ _.
                      session-IsOffered a e role
                        (standard_only target snapshot.current_plan t u v)))))

  upgrade-WhenOffered :
      (monthly : Bool)
      → WhenOffered (upgrade_subscription now fresh company user (some target) sku monthly team b)
  unfolding upgrade_subscription
  upgrade-WhenOffered monthly =
      let seen : Account × Snapshot = get_subscription_snapshot now (b.accounts company) in
      elim (Option-cases (find_active_role company user team)) [
        | inl n ↦ rw (n, upgrade_subscription) tt
        | inr (r, f) ↦
            rw (f, upgrade_subscription)
              (if_intro WhenOffered (not (same_role r admin)) (λ _. tt)
                (λ t.
                  offer-IsOffered monthly seen.0 seen.1 refl
                    (f ∙ ap some (same_role_admin r (ground arith)))))
      ]

-- A payment is offered to an active administrator of the company only, and for a standard plan only:
-- the new session is pending, has the price of the package that the request names, and adds the
-- package's increment once it is paid; the books change by it and by what the snapshot writes for the
-- company.
pub upgrade_subscription-IsOffered :
    (now fresh company user : ℕ) (target : PricingPlan) (sku : Option ℕ) (monthly : Bool)
    (team : Team) (b last : Books) (s : PaymentSession)
    → upgrade_subscription now fresh company user (some target) sku monthly team b
      ≡ (last, done (payment s))
    → IsOffered now fresh company user target sku team b s last
upgrade_subscription-IsOffered now fresh company user target sku monthly team b last s e =
    subst (WhenOffered now fresh company user target sku team b s) e
      (upgrade-WhenOffered now fresh company user target sku team b s monthly) refl
