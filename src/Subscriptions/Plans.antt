-- ===== src/Subscriptions/Plans.antt =====
-- The plan of a company and the snapshot of it (`getSubscriptionSnapshot` and `getCompanyAndCycle` of
-- src/services/subscriptionService.js), with the rules of
-- src/services/subscriptionService/planRules.js on the values of the column `current_plan`. The state
-- is the row of a company in `companies` and in `subscription_cycles`; times are milliseconds.
use be_weavecarbon.Common.{
  ℕ, ◌+◌, ◌-◌, ◌*◌, ◌/◌, Bool, true, false, ◌&&◌, Option, none, some, leb, ◌==◌, if◌then◌else◌,
}

pub data PricingPlan : Type 0 where
  trial : PricingPlan
  standard : PricingPlan
  standard_20 : PricingPlan
  standard_35 : PricingPlan
  standard_50 : PricingPlan
  export_plan : PricingPlan

pub record Cycle : Type 0 where
  pub trial_started_at : ℕ
  pub trial_ends_at : ℕ
  pub standard_started_at : Option ℕ
  pub standard_expires_at : Option ℕ
  pub standard_sku_limit : ℕ

pub record Account : Type 0 where
  pub current_plan : PricingPlan
  pub created_at : ℕ
  pub cycle : Option Cycle

abbrev pub day_ms : ℕ
day_ms = 86400000

-- `normalizePlanId`
unfoldable pub normalize_plan_id : PricingPlan → PricingPlan
normalize_plan_id trial = trial
normalize_plan_id standard = standard
normalize_plan_id standard_20 = standard
normalize_plan_id standard_35 = standard
normalize_plan_id standard_50 = standard
normalize_plan_id export_plan = export_plan

abbrev pub is_trial : PricingPlan → Bool
is_trial trial = true
is_trial _ = false

-- `isStandardPlan`
unfoldable pub is_standard_plan : PricingPlan → Bool
unfolding normalize_plan_id
is_standard_plan plan = elim (normalize_plan_id plan) [ standard ↦ true | _ ↦ false ]

-- `inferLegacyStandardSkuLimit`
unfoldable pub infer_legacy_sku_limit : PricingPlan → ℕ → ℕ
infer_legacy_sku_limit standard_50 fallback = 50
infer_legacy_sku_limit standard_35 fallback = 35
infer_legacy_sku_limit standard_20 fallback = 20
infer_legacy_sku_limit standard fallback = 20
infer_legacy_sku_limit _ fallback = fallback

-- `PLAN_RANK`
unfoldable pub resolve_plan_rank : PricingPlan → ℕ
unfolding normalize_plan_id
resolve_plan_rank plan = elim (normalize_plan_id plan) [ trial ↦ 1 | export_plan ↦ 3 | _ ↦ 2 ]

-- The cycle that `getCompanyAndCycle` finds or inserts.
unfoldable pub cycle_of : Account → Cycle
cycle_of a = elim a.cycle [
  | some c ↦ c
  | none ↦ record {
    trial_started_at = a.created_at;
    trial_ends_at = a.created_at + 14 * day_ms;
    standard_started_at = none;
    standard_expires_at = none;
    standard_sku_limit = 0;
  }
]

-- `calcDaysRemaining`
abbrev pub days_remaining : ℕ → ℕ → ℕ
days_remaining now end = (end - now + (day_ms - 1)) / day_ms

abbrev started : ℕ → Cycle → ℕ
started now c = elim c.standard_started_at [ some at ↦ at | none ↦ now ]

abbrev pub start_of : ℕ → Cycle → Option ℕ
start_of now c = elim c.standard_expires_at [
  | some at ↦ c.standard_started_at
  | none ↦ some (started now c)
]

abbrev pub end_of : ℕ → Cycle → ℕ
end_of now c = elim c.standard_expires_at [ some at ↦ at | none ↦ started now c + 30 * day_ms ]

-- The term of a standard plan, opened where it is not yet.
abbrev pub with_term : ℕ → Cycle → Cycle
with_term now c = record c {
  standard_started_at = start_of now c;
  standard_expires_at = some (end_of now c);
}

abbrev pub limit_of : PricingPlan → Cycle → ℕ
limit_of raw c =
    if c.standard_sku_limit == 0 then infer_legacy_sku_limit raw 20 else c.standard_sku_limit

abbrev pub with_limit : PricingPlan → Cycle → Cycle
with_limit raw c = record c { standard_sku_limit = limit_of raw c }

pub record Snapshot : Type 0 where
  pub current_plan : PricingPlan
  pub standard_sku_limit : ℕ
  pub trial_ends_at : ℕ
  pub trial_expired : Bool
  pub trial_days_remaining : ℕ
  pub standard_started_at : Option ℕ
  pub standard_expires_at : Option ℕ
  pub standard_expired : Bool
  pub standard_days_remaining : ℕ
  pub features_locked : Bool

abbrev pub snapshot_of : ℕ → PricingPlan → Bool → ℕ → Cycle → Snapshot
snapshot_of now plan expired left c = record {
  current_plan = plan;
  standard_sku_limit = c.standard_sku_limit;
  trial_ends_at = c.trial_ends_at;
  trial_expired = leb c.trial_ends_at now;
  trial_days_remaining = days_remaining now c.trial_ends_at;
  standard_started_at = c.standard_started_at;
  standard_expires_at = c.standard_expires_at;
  standard_expired = expired;
  standard_days_remaining = left;
  features_locked = is_trial plan && leb c.trial_ends_at now;
}

abbrev pub with_rows : PricingPlan → Cycle → Account → Account
with_rows plan c a = record a { current_plan = plan; cycle = some c }

-- The part for a standard plan that ends at `end`: the fall back to the trial.
abbrev pub standard_snapshot : ℕ → ℕ → Cycle → Account → Account × Snapshot
standard_snapshot now end c a =
    let plan : PricingPlan = if leb end now then trial else standard in
    (with_rows plan c a, snapshot_of now plan (leb end now) (days_remaining now end) c)

-- `getSubscriptionSnapshot`
unfoldable pub get_subscription_snapshot : ℕ → Account → Account × Snapshot
unfolding normalize_plan_id is_standard_plan
get_subscription_snapshot now a =
    let plan = normalize_plan_id a.current_plan in
    let c = cycle_of a in
    if is_standard_plan plan
    then standard_snapshot now (end_of now c) (with_term now (with_limit a.current_plan c)) a
    else (with_rows plan c a, snapshot_of now plan false 0 c)
