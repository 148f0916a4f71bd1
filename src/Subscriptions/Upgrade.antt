-- ===== src/Subscriptions/Upgrade.antt =====
-- `upgradeSubscription` of src/services/subscriptionService.js, with the packages of
-- src/services/subscriptionService/planRules.js. It runs outside a transaction: what the snapshot
-- writes stays when a later check fails. The requested plan is a value of `pricing_plan`, or none where
-- the text names no plan.
use be_weavecarbon.Common.{
  ℕ, ◌+◌, ◌*◌, Bool, true, false, not, ◌&&◌, ◌||◌, Option, none, some, ◌∷◌, ltb, leb, ◌==◌,
  if◌then◌else◌,
}
use be_weavecarbon.Members.Team.{Team, admin, same_role, find_active_role}
use be_weavecarbon.Subscriptions.Plans.{
  PricingPlan, Snapshot, trial, standard, export_plan, is_standard_plan, is_trial,
  infer_legacy_sku_limit, resolve_plan_rank, get_subscription_snapshot,
}
use be_weavecarbon.Subscriptions.Payments.{
  PaymentSession, Books, Outcome, pending, done, failed, set_account,
}

pub record StandardPackage : Type 0 where
  pub sku_increment : ℕ
  pub price_monthly : ℕ

-- `resolveStandardPackage`
unfoldable pub resolve_standard_package : ℕ → StandardPackage
resolve_standard_package n =
    if leb 50 n
    then record { sku_increment = 50; price_monthly = 1499000 }
    else if leb 35 n
    then record { sku_increment = 35; price_monthly = 1199000 }
    else record { sku_increment = 20; price_monthly = 899000 }

pub data Checkout : Type 0 where
  contact : Checkout
  payment : PaymentSession → Checkout

abbrev asked_limit : Option ℕ → PricingPlan → ℕ
asked_limit none target = infer_legacy_sku_limit target 20
asked_limit (some n) target = if n == 0 then infer_legacy_sku_limit target 20 else n

abbrev pub package_of : Option ℕ → PricingPlan → StandardPackage
package_of sku target = resolve_standard_package (asked_limit sku target)

-- The session that is offered: half an hour to pay.
abbrev pub new_session : ℕ → ℕ → ℕ → ℕ → PricingPlan → ℕ → Option ℕ → Option ℕ → PaymentSession
new_session now fresh company user plan amount increment sku = record {
  id = fresh;
  company_id = company;
  user_id = user;
  target_plan = plan;
  amount = amount;
  status = pending;
  expires_at = now + 30 * 60000;
  paid_at = none;
  metadata = record {
    standard_sku_increment = increment;
    requested_standard_sku_limit = sku;
    vnpay_last_checked_at = none;
    last_payment_resolution = none;
  };
}

abbrev pub session_of : ℕ → ℕ → ℕ → ℕ → PricingPlan → Option ℕ → PaymentSession
session_of now fresh company user target sku =
    if is_standard_plan target
    then new_session now fresh company user standard (package_of sku target).price_monthly
        (some (package_of sku target).sku_increment) sku
    else new_session now fresh company user trial 149000 none sku

abbrev pub insert_session : PaymentSession → Books → Books
insert_session s b = record b { sessions = s ∷ b.sessions }

abbrev pub is_export : PricingPlan → Bool
is_export export_plan = true
is_export _ = false

-- A standard plan is bought again, or from a trial.
abbrev pub is_addon : PricingPlan → PricingPlan → Bool
is_addon target current = is_standard_plan target && (is_standard_plan current || is_trial current)

abbrev pub is_same_rank : PricingPlan → PricingPlan → Bool
is_same_rank p q = resolve_plan_rank p == resolve_plan_rank q

-- The checks against the current plan, on the books that the snapshot has written. The normalized plans
-- are told apart by their ranks.
abbrev pub offer :
    ℕ → ℕ → ℕ → ℕ → PricingPlan → Option ℕ → Bool → Snapshot → Books → Books × Outcome Checkout
offer now fresh company user target sku monthly snapshot b =
    if is_same_rank target snapshot.current_plan && not (is_addon target snapshot.current_plan)
    then (b, failed "PLAN_ALREADY_ACTIVE")
    else if ltb (resolve_plan_rank target) (resolve_plan_rank snapshot.current_plan)
    then (b, failed "PLAN_DOWNGRADE_NOT_ALLOWED")
    else if is_export target
    then (b, done contact)
    else if not monthly
    then (b, failed "INVALID_BILLING_CYCLE")
    else (
      insert_session (session_of now fresh company user target sku) b,
      done (payment (session_of now fresh company user target sku)),
    )

abbrev pub request_plan :
    ℕ → ℕ → ℕ → ℕ → Option PricingPlan → Option ℕ → Bool → Books → Books × Outcome Checkout
request_plan now fresh company user none sku monthly b = (b, failed "INVALID_PLAN")
request_plan now fresh company user (some target) sku monthly b =
    let r = get_subscription_snapshot now (b.accounts company) in
    offer now fresh company user target sku monthly r.1 (set_account company r.0 b)

unfoldable pub upgrade_subscription :
    ℕ → ℕ → ℕ → ℕ → Option PricingPlan → Option ℕ → Bool → Team → Books → Books × Outcome Checkout
upgrade_subscription now fresh company user target sku monthly team b =
    elim (find_active_role company user team) [
      | none ↦ (b, failed "FORBIDDEN")
      | some role ↦
          if not (same_role role admin)
          then (b, failed "FORBIDDEN")
          else request_plan now fresh company user target sku monthly b
    ]
