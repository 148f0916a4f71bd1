-- ===== src/Subscriptions/Paid.antt =====
-- What a payment buys, in `completeUpgrade` and `upgradeSubscription` of
-- src/services/subscriptionService.js.
use Prim.Native.Nat.{max}
use be_weavecarbon.Common.{
  ℕ, zero, suc, ◌+◌, ◌*◌, ◌≤◌, ◌<◌, ltb, sym, ap, true, false, not, ◌&&◌, ◌≡◌, refl, subst, ◌⊎◌,
  inl, inr, Option, none, some, ◌∷◌, ◌==◌, ==_iff, leb, arith, if◌then◌else◌, if_intro,
  Option-cases, Bool-cases,
}
use be_weavecarbon.Subscriptions.Plans.{
  PricingPlan, Account, Cycle, trial, infer_legacy_sku_limit, standard, day_ms, is_standard_plan,
  is_trial, get_subscription_snapshot, cycle_of,
}
use be_weavecarbon.Subscriptions.Payments.{
  PaymentStatus, PaymentSession, Books, Outcome, Completion, GatewayResult, pending, success,
  failed_payment, cancelled, expired, done, upgraded, find_session, is_payment_session_expired,
  is_successful_vnpay_result, close_session, grant, settle, settle_status, complete_upgrade,
  paid_time, or_number, standard_cycle, trial_cycle, set_account, grant_standard, grant_trial,
  purchased_sku_increment, current_limit,
}

-- What a session asks for: the first number given that is not 0, of the increment, of the limit that
-- was requested, and of the limit of an old plan.
abbrev pub asked_for : Option ℕ → Option ℕ → ℕ → ℕ
asked_for (some (suc n)) requested legacy = suc n
asked_for (some zero) (some (suc m)) legacy = suc m
asked_for (some zero) (some zero) legacy = legacy
asked_for (some zero) none legacy = legacy
asked_for none (some (suc m)) legacy = suc m
asked_for none (some zero) legacy = legacy
asked_for none none legacy = legacy

abbrev pub bought : PaymentSession → ℕ
bought s =
    asked_for s.metadata.standard_sku_increment s.metadata.requested_standard_sku_limit
      (infer_legacy_sku_limit s.target_plan 20)

-- An account that has got thirty days of a standard plan, and the stock keeping units that were
-- bought, 20 at least, on top of those it could use.
pub record HasStandard (now : ℕ) (s : PaymentSession) (before after : Account) : Type 0 where
  pub cycle : Cycle
  pub is_standard : after.current_plan ≡ standard
  pub has_cycle : after.cycle ≡ some cycle
  pub started : cycle.standard_started_at ≡ some now
  pub ends : cycle.standard_expires_at ≡ some (now + 2592000000)
  pub limit : cycle.standard_sku_limit ≡ current_limit now before + max 20 (bought s)
  pub same_trial :
      (cycle.trial_started_at
        ≡ (cycle_of (get_subscription_snapshot now before).0).trial_started_at)
      × (cycle.trial_ends_at ≡ (cycle_of (get_subscription_snapshot now before).0).trial_ends_at)

-- An account that has got thirty days of a trial.
pub record HasTrial (now : ℕ) (before after : Account) : Type 0 where
  pub cycle : Cycle
  pub on_trial : after.current_plan ≡ trial
  pub has_cycle : after.cycle ≡ some cycle
  pub started : cycle.trial_started_at ≡ now
  pub ends : cycle.trial_ends_at ≡ now + 2592000000
  pub same_limit : cycle.standard_sku_limit ≡ (cycle_of before).standard_sku_limit

-- What the plan of a session makes of an account.
abbrev pub IsCredited : ℕ → PaymentSession → Account → Account → Type 0
IsCredited now s before after =
    ((is_standard_plan s.target_plan ≡ true) × HasStandard now s before after)
    ⊎ ((is_trial s.target_plan ≡ true) × HasTrial now before after)

positive : (n : ℕ) → (suc n == 0) ≡ false
positive n = ground arith

increment-asked :
    (i r : Option ℕ) (legacy : ℕ) → or_number i (or_number r legacy) ≡ asked_for i r legacy
increment-asked none none legacy = refl
increment-asked none (some zero) legacy = refl
increment-asked none (some (suc m)) legacy = rw (positive m) refl
increment-asked (some zero) none legacy = refl
increment-asked (some zero) (some zero) legacy = refl
increment-asked (some zero) (some (suc m)) legacy = rw (positive m) refl
increment-asked (some (suc n)) r legacy = rw (positive n) refl

increment-bought : (s : PaymentSession) → purchased_sku_increment s ≡ max 20 (bought s)
unfolding purchased_sku_increment
increment-bought s =
    subst (λ n. (if ltb n 20 then 20 else n) ≡ max 20 (bought s))
      (sym (
        increment-asked s.metadata.standard_sku_increment s.metadata.requested_standard_sku_limit
          (infer_legacy_sku_limit s.target_plan 20)))
      (ground arith)

grant_standard-HasStandard :
    (now : ℕ) (s : PaymentSession) (a : Account) → HasStandard now s a (grant_standard now s a)
unfolding grant_standard
grant_standard-HasStandard now s a = record {
  cycle =
      standard_cycle now (current_limit now a + purchased_sku_increment s)
        (cycle_of (get_subscription_snapshot now a).0);
  is_standard = refl;
  has_cycle = refl;
  started = refl;
  ends = refl;
  limit = ap (λ n. current_limit now a + n) (increment-bought s);
  same_trial = (refl, refl);
}

grant_trial-HasTrial : (now : ℕ) (a : Account) → HasTrial now a (grant_trial now a)
unfolding grant_trial
grant_trial-HasTrial now a = record {
  cycle = trial_cycle now (cycle_of a);
  on_trial = refl;
  has_cycle = refl;
  started = refl;
  ends = refl;
  same_limit = refl;
}

set_own : (company : ℕ) (a : Account) (b : Books) → (set_account company a b).accounts company ≡ a
set_own company a b = rw ((==_iff company company).1 refl) refl

set_others :
    (company : ℕ) (a : Account) (b : Books)
    → (set_account company a b).accounts ≡ (λ (c : ℕ).
        if c == company then (set_account company a b).accounts company else b.accounts c)
set_others company a b = λ i c. if c == company then sym (set_own company a b) i else b.accounts c

pub record IsPaid (now i : ℕ) (g : GatewayResult) (b : Books) (s : PaymentSession) (last : Books)
    : Type 0 where
  pub found : find_session i b ≡ some s
  pub was_pending : s.status ≡ pending
  pub in_time : is_payment_session_expired now s ≡ false
  pub full_price : (g.amount ≡ 0) ⊎ (g.amount ≡ s.amount * 100)
  pub accepted : is_successful_vnpay_result g.code g.transaction_status ≡ true
  pub marked :
      last.sessions ≡ (close_session now s.id success "paid" (paid_time now g.pay_date) b).sessions
  pub credited : IsCredited now s (b.accounts s.company_id) (last.accounts s.company_id)
  pub others :
      last.accounts
      ≡ (λ (c : ℕ). if c == s.company_id then last.accounts s.company_id else b.accounts c)
  pub recorded : last.events ≡ (record { event_name = "purchase"; entity_id = s.id }) ∷ b.events

module _ (now i : ℕ) (g : GatewayResult) (b : Books) (s : PaymentSession) where
  -- A result, when it says that the plan was upgraded.
  abbrev WhenUpgraded : Books × Outcome Completion → Type 0
  WhenUpgraded (last, done (upgraded plan limit)) = IsPaid now i g b s last
  WhenUpgraded _ = Unit

  grant-IsPaid :
      find_session i b ≡ some s
      → s.status ≡ pending
      → is_payment_session_expired now s ≡ false
      → (g.amount ≡ 0) ⊎ (g.amount ≡ s.amount * 100)
      → is_successful_vnpay_result g.code g.transaction_status ≡ true
      → WhenUpgraded
          (grant now s b (close_session now s.id success "paid" (paid_time now g.pay_date) b))
  grant-IsPaid e p t price ok =
      if_intro WhenUpgraded (is_standard_plan s.target_plan)
        (λ u. record {
          found = e;
          was_pending = p;
          in_time = t;
          full_price = price;
          accepted = ok;
          marked = refl;
          credited = inl (
            u,
            subst (HasStandard now s (b.accounts s.company_id))
                (sym (set_own s.company_id (grant_standard now s (b.accounts s.company_id)) b))
                (grant_standard-HasStandard now s (b.accounts s.company_id)),
          );
          others = set_others s.company_id (grant_standard now s (b.accounts s.company_id)) b;
          recorded = refl;
        })
        (λ u.
          if_intro WhenUpgraded (is_trial s.target_plan)
            (λ v. record {
              found = e;
              was_pending = p;
              in_time = t;
              full_price = price;
              accepted = ok;
              marked = refl;
              credited = inr (
                v,
                subst (HasTrial now (b.accounts s.company_id))
                    (sym (set_own s.company_id (grant_trial now (b.accounts s.company_id)) b))
                    (grant_trial-HasTrial now (b.accounts s.company_id)),
              );
              others = set_others s.company_id (grant_trial now (b.accounts s.company_id)) b;
              recorded = refl;
            })
            (λ _. tt))

  settle-IsPaid : find_session i b ≡ some s → s.status ≡ pending → WhenUpgraded (settle now s g b)
  settle-IsPaid e p =
      if_intro WhenUpgraded (is_payment_session_expired now s) (λ _. tt)
        (λ t.
          if_intro WhenUpgraded (not (g.amount == 0) && not (g.amount == s.amount * 100)) (λ _. tt)
            (λ u.
              if_intro WhenUpgraded (not (is_successful_vnpay_result g.code g.transaction_status))
                (λ _. tt) (λ ok. grant-IsPaid e p t (price u) (ground arith))))
    where
      price :
          (not (g.amount == 0) && not (g.amount == s.amount * 100)) ≡ false
          → (g.amount ≡ 0) ⊎ (g.amount ≡ s.amount * 100)
      price u = elim (Bool-cases (g.amount == 0)) [
        | inl z ↦ inl ((==_iff g.amount 0).0 z)
        | inr z ↦ inr ((==_iff g.amount (s.amount * 100)).0 (ground arith))
      ]

  settle_status-IsPaid :
      (status : PaymentStatus)
      → find_session i b ≡ some s
      → s.status ≡ status
      → WhenUpgraded (settle_status now s g b status)
  settle_status-IsPaid pending e p = settle-IsPaid e p
  settle_status-IsPaid success e p = tt
  settle_status-IsPaid failed_payment e p = tt
  settle_status-IsPaid cancelled e p = tt
  settle_status-IsPaid expired e p = tt

-- When a completion reports an upgrade, the session was pending and not expired, the gateway accepted
-- the payment and named the whole price or no amount (0), the session is marked as paid, one purchase
-- is handed to the analytics, and the account of its company, and no other, gets thirty days of the
-- plan: of the standard one with what was bought, 20 at least, on top of its limit, or of the trial.
pub complete_upgrade-IsPaid :
    (now i : ℕ) (g : GatewayResult) (b last : Books) (plan : PricingPlan) (limit : Option ℕ)
    → complete_upgrade now i g b ≡ (last, done (upgraded plan limit))
    → (s : PaymentSession) × IsPaid now i g b s last
unfolding complete_upgrade
complete_upgrade-IsPaid now i g b last plan limit e = elim (Option-cases (find_session i b)) [
  | inl n ↦ absurd (cc (rw (n, complete_upgrade) at e))
  | inr (s, f) ↦ (
    s,
    subst (WhenUpgraded now i g b s) (rw (f, complete_upgrade) at e)
        (settle_status-IsPaid now i g b s s.status f refl),
  )
]

-- At least the smallest package is added.
increment_floor : (s : PaymentSession) → 20 ≤ purchased_sku_increment s
unfolding purchased_sku_increment
increment_floor s = ground arith

limit_stays : (n m : ℕ) → 20 ≤ m → ((n + m) == 0) ≡ false
limit_stays n m h = ground arith

-- For thirty days after a standard plan was bought, a snapshot shows the standard plan, not expired
-- and not locked, with the limit that it showed at the purchase and the increment bought, which is at
-- least 20.
pub grant_standard-serves :
    (now later : ℕ) (s : PaymentSession) (a : Account)
    → later < now + 30 * day_ms
    → ((get_subscription_snapshot later (grant_standard now s a)).1.current_plan ≡ standard)
      × ((get_subscription_snapshot later (grant_standard now s a)).1.standard_expired ≡ false)
      × ((get_subscription_snapshot later (grant_standard now s a)).1.features_locked ≡ false)
      × ((get_subscription_snapshot later (grant_standard now s a)).1.standard_sku_limit
          ≡ current_limit now a + purchased_sku_increment s)
      × (20 ≤ purchased_sku_increment s)
unfolding grant_standard get_subscription_snapshot cycle_of
grant_standard-serves now later s a h =
    let term : leb (now + 30 * day_ms) later ≡ false = ground (arith, h) in
    let limit : ((current_limit now a + purchased_sku_increment s) == 0) ≡ false =
      limit_stays (current_limit now a) (purchased_sku_increment s) (increment_floor s) in
    (rw term refl, term, rw term refl, rw limit refl, increment_floor s)
