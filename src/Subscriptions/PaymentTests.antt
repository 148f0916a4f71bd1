-- ===== src/Subscriptions/PaymentTests.antt =====
-- Runs of payments on small books.
use be_weavecarbon.Common.{ℕ, true, ◌≡◌, refl, none, some, [], ◌∷◌}
use be_weavecarbon.Members.Team.{Team, admin, active, find_active_role}
use be_weavecarbon.Subscriptions.Plans.{
  Account, trial, standard, standard_35, normalize_plan_id, is_standard_plan,
  infer_legacy_sku_limit, resolve_plan_rank, cycle_of, get_subscription_snapshot,
}
use be_weavecarbon.Subscriptions.Payments.{
  PaymentSession, Books, GatewayResult, success, done, upgraded, complete_upgrade,
  is_successful_vnpay_result, purchased_sku_increment,
}
use be_weavecarbon.Subscriptions.Upgrade.{
  payment, session_of, resolve_standard_package, upgrade_subscription,
}
use be_weavecarbon.Subscriptions.Moves.{Step, Reach}
use be_weavecarbon.Subscriptions.Charges.{IsCharged, Reach-IsCharged}
use be_weavecarbon.Subscriptions.Resolved.{IsResolved, Reach-IsResolved}
use be_weavecarbon.Subscriptions.Paid.{IsPaid, complete_upgrade-IsPaid}

abbrev team : Team
team = record {
  companies = [];
  users = [];
  profiles = [];
  members =
      (record {
        id = 1;
        company_id = 5;
        user_id = 11;
        role = admin;
        status = active;
        invited_by = none;
        created_at = 0;
        updated_at = 0;
      })
      ∷ [];
}

abbrev on_trial : Account
on_trial = record { current_plan = trial; created_at = 0; cycle = none }

abbrev empty_books : Books
empty_books = record { sessions = []; accounts = λ (c : ℕ). on_trial; events = [] }

abbrev offered_books : Books
offered_books = (upgrade_subscription 1000 70 5 11 (some standard_35) none true team empty_books).0

abbrev offer : PaymentSession
offer = session_of 1000 70 5 11 standard_35 none

offers :
    upgrade_subscription 1000 70 5 11 (some standard_35) none true team empty_books
    ≡ (offered_books, done (payment offer))
unfolding upgrade_subscription find_active_role get_subscription_snapshot normalize_plan_id
    is_standard_plan resolve_plan_rank cycle_of
offers = refl

abbrev paid : GatewayResult
paid = record { code = "00"; transaction_status = "00"; amount = 119900000; pay_date = some 2000 }

abbrev paid_books : Books
paid_books = (complete_upgrade 3000 70 paid offered_books).0

pays :
    complete_upgrade 3000 70 paid offered_books ≡ (paid_books, done (upgraded standard (some 35)))
unfolding complete_upgrade upgrade_subscription find_active_role get_subscription_snapshot
    normalize_plan_id is_standard_plan resolve_plan_rank resolve_standard_package
    infer_legacy_sku_limit cycle_of is_successful_vnpay_result purchased_sku_increment
pays = refl

complete_upgrade-IsPaid_example :
    (s : PaymentSession) × IsPaid 3000 70 paid offered_books s paid_books
complete_upgrade-IsPaid_example =
    complete_upgrade-IsPaid 3000 70 paid offered_books paid_books standard (some 35) pays

-- A second notice of the same payment.
abbrev again : Books
again = (complete_upgrade 4000 70 paid paid_books).0

Reach-IsCharged_example : IsCharged again
Reach-IsCharged_example =
    Reach-IsCharged empty_books again
      (Reach.next
        (Reach.next
          (Reach.next Reach.here
            (Step.asked 1000 70 5 11 (some standard_35) none true team (tt, tt)))
          (Step.completed 3000 70 paid))
        (Step.completed 4000 70 paid))
      tt

paid-IsResolved : IsResolved 70 success (some 2000) paid_books
unfolding complete_upgrade upgrade_subscription find_active_role get_subscription_snapshot
    normalize_plan_id is_standard_plan resolve_plan_rank resolve_standard_package
    infer_legacy_sku_limit cycle_of is_successful_vnpay_result purchased_sku_increment
paid-IsResolved = (refl, ((λ e. (refl, refl)), tt))

Reach-IsResolved_example : IsResolved 70 success (some 2000) again
Reach-IsResolved_example =
    Reach-IsResolved 70 success (some 2000) paid_books again refl
      (Reach.next Reach.here (Step.completed 4000 70 paid)) paid-IsResolved
