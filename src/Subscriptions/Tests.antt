-- ===== src/Subscriptions/Tests.antt =====
-- Runs of snapshots on small accounts.
use be_weavecarbon.Common.{◌*◌, true, ◌≡◌, refl, none, arith}
use be_weavecarbon.Subscriptions.Plans.{
  Account, trial, standard_35, normalize_plan_id, is_standard_plan, infer_legacy_sku_limit,
  cycle_of, get_subscription_snapshot, day_ms,
}
use be_weavecarbon.Subscriptions.Settled.{get_subscription_snapshot-stays_locked}

abbrev legacy : Account
legacy = record { current_plan = standard_35; created_at = 0; cycle = none }

abbrev beginner : Account
beginner = record { current_plan = trial; created_at = 0; cycle = none }

-- A legacy plan gets its limit and a term of thirty days.
legacy_limit : (get_subscription_snapshot 5 legacy).1.standard_sku_limit ≡ 35
unfolding get_subscription_snapshot normalize_plan_id is_standard_plan infer_legacy_sku_limit
    cycle_of
legacy_limit = refl

locks : (get_subscription_snapshot (14 * day_ms) beginner).1.features_locked ≡ true
unfolding get_subscription_snapshot normalize_plan_id is_standard_plan infer_legacy_sku_limit
    cycle_of
locks = refl

get_subscription_snapshot-stays_locked_example :
    (get_subscription_snapshot
      (15 * day_ms)
      (get_subscription_snapshot (14 * day_ms) beginner).0).1.features_locked
    ≡ true
get_subscription_snapshot-stays_locked_example =
    get_subscription_snapshot-stays_locked (14 * day_ms) (15 * day_ms) beginner (omega arith) locks
