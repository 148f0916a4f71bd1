-- ===== src/Subscriptions/Moves.antt =====
-- The histories of the payment sessions of src/services/subscriptionService.js: what is charged, and
-- what is settled once and for all.
use be_weavecarbon.Common.{
  ℕ, ltb, ◌*◌, String, Bool, true, false, not, ◌&&◌, ◌≡◌, ◌≢◌, refl, sym, subst, Option, none, some,
  ◌∷◌, ◌==◌, ==_iff, str_eq, if◌then◌else◌, All, if_intro, option_intro, update_where,
  select_one_sound,
}
use be_weavecarbon.Members.Team.{Team, admin, same_role, find_active_role}
use be_weavecarbon.Subscriptions.Plans.{
  PricingPlan, Account, Snapshot, get_subscription_snapshot, resolve_plan_rank, is_standard_plan,
  is_trial,
}
use be_weavecarbon.Subscriptions.Payments.{
  PaymentStatus, PaymentSession, PaymentEvent, Books, Outcome, Completion, GatewayResult, Query,
  pending, success, failed_payment, cancelled, expired, is_pending, has_id, find_session, resolve,
  close_session, grant, settle, settle_status, complete_upgrade, checked, update_metadata,
  is_pending_id, expire, is_recent, on_answer, on_query, with_code,
  reconcile_pending_payment_session, is_payment_session_expired, is_successful_vnpay_result,
  is_failed_vnpay_result, request_failed, unverified, answered, set_account,
}
use be_weavecarbon.Subscriptions.Upgrade.{
  Checkout, is_same_rank, is_addon, is_export, offer, request_plan, upgrade_subscription,
  session_of, insert_session,
}

abbrev pub is_success : PaymentStatus → Bool
is_success success = true
is_success _ = false

abbrev pub is_purchase : ℕ → PaymentEvent → Bool
is_purchase i e = str_eq e.event_name "purchase" && e.entity_id == i

-- The purchases that a session of a status has led to.
abbrev pub expected : PaymentStatus → ℕ
expected s = if is_success s then 1 else 0

-- What a step makes of the sessions and the events.
pub data Change (b : Books) : Books → Type 0 where
  kept : {last : Books} → last.sessions ≡ b.sessions → last.events ≡ b.events → Change b last
  offered :
      (s : PaymentSession) (last : Books)
      → s.status ≡ pending
      → last.sessions ≡ s ∷ b.sessions
      → last.events ≡ b.events
      → All (λ x. x.id ≢ s.id) b.sessions
      → All (λ e. e.entity_id ≢ s.id) b.events
      → Change b last
  noted :
      (i : ℕ) (change : PaymentSession → PaymentSession) (last : Books)
      → ((s : PaymentSession) → (change s).id ≡ s.id)
      → ((s : PaymentSession) → (change s).status ≡ s.status)
      → ((s : PaymentSession) → (change s).paid_at ≡ s.paid_at)
      → last.sessions ≡ update_where (has_id i) change b.sessions
      → last.events ≡ b.events
      → Change b last
  lapsed :
      (i : ℕ) (last : Books)
      → last.sessions ≡ update_where (is_pending_id i) expire b.sessions
      → last.events ≡ b.events
      → Change b last
  settled :
      (now : ℕ) (s : PaymentSession) (status : PaymentStatus) (note name : String) (paid : Option ℕ)
      (last : Books)
      → find_session s.id b ≡ some s
      → s.status ≡ pending
      → str_eq name "purchase" ≡ is_success status
      → last.sessions ≡ update_where (has_id s.id) (resolve now status note paid) b.sessions
      → last.events ≡ (record { event_name = name; entity_id = s.id }) ∷ b.events
      → Change b last

-- The session of an id is found under its own id.
find_session-own :
    (i : ℕ) (b : Books) (s : PaymentSession)
    → find_session i b ≡ some s
    → find_session s.id b ≡ some s
find_session-own i b s e =
    subst (λ k. find_session k b ≡ some s)
      (sym ((==_iff s.id i).0 (select_one_sound (has_id i) b.sessions s e))) e

abbrev Changes {ℓ} : {A : Type ℓ} → Books → Books × Outcome A → Type 0
Changes b r = Change b r.0

grant-Change :
    (now : ℕ) (s : PaymentSession) (paid : Option ℕ) (b : Books)
    → find_session s.id b ≡ some s
    → s.status ≡ pending
    → Changes b (grant now s b (close_session now s.id success "paid" paid b))
grant-Change now s paid b e p =
    if_intro (Changes {A = Completion} b) (is_standard_plan s.target_plan)
      (λ _. Change.settled now s success "paid" "purchase" paid _ e p refl refl refl)
      (λ _.
        if_intro (Changes {A = Completion} b) (is_trial s.target_plan)
          (λ _. Change.settled now s success "paid" "purchase" paid _ e p refl refl refl)
          (λ _. Change.kept refl refl))

settle-Change :
    (now : ℕ) (s : PaymentSession) (g : GatewayResult) (b : Books)
    → find_session s.id b ≡ some s
    → s.status ≡ pending
    → Changes b (settle now s g b)
settle-Change now s g b e p =
    if_intro (Changes {A = Completion} b) (is_payment_session_expired now s)
      (λ _.
        Change.settled now s expired "expired" "wc_payment_failed" s.paid_at _ e p refl refl refl)
      (λ _.
        if_intro (Changes {A = Completion} b)
          (not (g.amount == 0) && not (g.amount == s.amount * 100)) (λ _. Change.kept refl refl)
          (λ _.
            if_intro (Changes {A = Completion} b)
              (not (is_successful_vnpay_result g.code g.transaction_status))
              (λ _.
                Change.settled now s failed_payment "failed" "wc_payment_failed" s.paid_at _ e p
                  refl refl refl)
              (λ _. grant-Change now s _ b e p)))

settle_status-Change :
    (now : ℕ) (s : PaymentSession) (g : GatewayResult) (b : Books) (status : PaymentStatus)
    → find_session s.id b ≡ some s
    → s.status ≡ status
    → Changes b (settle_status now s g b status)
settle_status-Change now s g b pending e p = settle-Change now s g b e p
settle_status-Change now s g b success e p = Change.kept refl refl
settle_status-Change now s g b failed_payment e p = Change.kept refl refl
settle_status-Change now s g b cancelled e p = Change.kept refl refl
settle_status-Change now s g b expired e p = Change.kept refl refl

complete_upgrade-Change :
    (now i : ℕ) (g : GatewayResult) (b : Books) → Changes b (complete_upgrade now i g b)
unfolding complete_upgrade
complete_upgrade-Change now i g b =
    option_intro (Changes {A = Completion} b) (find_session i b) (λ _. Change.kept refl refl)
      (λ s e. settle_status-Change now s g b s.status (find_session-own i b s e) refl)

update_metadata-Change :
    (now i : ℕ) (note : Option String) (b : Books) → Change b (update_metadata now i note b)
update_metadata-Change now i note b =
    Change.noted i (checked now note) _ (λ s. refl) (λ s. refl) (λ s. refl) refl refl

-- One change after the other.
pub data Run (b : Books) : Books → Type 0 where
  here : Run b b
  next : {mid last : Books} → Run b mid → Change mid last → Run b last

once : {b last : Books} → Change b last → Run b last
once c = Run.next Run.here c

on_answer-Run :
    (now : ℕ) (seen : PaymentSession) (g : GatewayResult) (b : Books)
    → Run b (on_answer now seen g b)
on_answer-Run now seen g b =
    if_intro (Run b) (not (g.amount == 0) && not (g.amount == seen.amount * 100))
      (λ _. once (update_metadata-Change now seen.id (some "amount_mismatch") b))
      (λ _.
        if_intro (Run b) (is_successful_vnpay_result g.code g.transaction_status)
          (λ _. once (complete_upgrade-Change now seen.id g b))
          (λ _.
            if_intro (Run b) (is_failed_vnpay_result g.code g.transaction_status)
              (λ _. once (complete_upgrade-Change now seen.id (with_code g) b))
              (λ _. once (update_metadata-Change now seen.id none b))))

on_query-Run :
    (now : ℕ) (seen : PaymentSession) (q : Query) (b : Books) → Run b (on_query now seen q b)
on_query-Run now seen request_failed b = once (update_metadata-Change now seen.id none b)
on_query-Run now seen unverified b = once (update_metadata-Change now seen.id none b)
on_query-Run now seen (answered g) b = on_answer-Run now seen g b

reconcile-Run :
    (mock : Bool) (now : ℕ) (seen : PaymentSession) (q : Query) (b : Books)
    → Run b (reconcile_pending_payment_session mock now seen q b)
unfolding reconcile_pending_payment_session
reconcile-Run mock now seen q b =
    if_intro (Run b) (not (is_pending seen.status)) (λ _. Run.here)
      (λ _.
        if_intro (Run b) (is_payment_session_expired now seen)
          (λ _.
            Run.next (once (update_metadata-Change now seen.id (some "expired") b))
              (Change.lapsed seen.id _ refl refl))
          (λ _.
            if_intro (Run b) mock (λ _. Run.here)
              (λ _.
                if_intro (Run b) (is_recent now seen.metadata) (λ _. Run.here)
                  (λ _. on_query-Run now seen q b))))

-- A session that is offered is new to the books.
abbrev pub IsNew : ℕ → Books → Type 0
IsNew i b = All (λ x. x.id ≢ i) b.sessions × All (λ e. e.entity_id ≢ i) b.events

session_of-pending :
    (now fresh company user : ℕ) (target : PricingPlan) (sku : Option ℕ)
    → ((session_of now fresh company user target sku).status ≡ pending)
      × ((session_of now fresh company user target sku).id ≡ fresh)
session_of-pending now fresh company user target sku =
    if_intro (λ (s : PaymentSession). (s.status ≡ pending) × (s.id ≡ fresh))
      (is_standard_plan target) (λ _. (refl, refl)) (λ _. (refl, refl))

offered-Change :
    (s : PaymentSession) (fresh company : ℕ) (a : Account) (b : Books)
    → (s.status ≡ pending) × (s.id ≡ fresh)
    → IsNew fresh b
    → Change b (insert_session s (set_account company a b))
offered-Change s fresh company a b (p, e) (n, m) =
    Change.offered s _ p refl refl (subst (λ i. All (λ x. x.id ≢ i) b.sessions) (sym e) n)
      (subst (λ i. All (λ x. x.entity_id ≢ i) b.events) (sym e) m)

offer-Change :
    (now fresh company user : ℕ) (target : PricingPlan) (sku : Option ℕ) (monthly : Bool)
    (snapshot : Snapshot) (a : Account) (b : Books)
    → IsNew fresh b
    → Changes b (offer now fresh company user target sku monthly snapshot (set_account company a b))
offer-Change now fresh company user target sku monthly snapshot a b new =
    if_intro (Changes {A = Checkout} b)
      (is_same_rank target snapshot.current_plan && not (is_addon target snapshot.current_plan))
      (λ _. unchanged)
      (λ _.
        if_intro (Changes {A = Checkout} b)
          (ltb (resolve_plan_rank target) (resolve_plan_rank snapshot.current_plan))
          (λ _. unchanged)
          (λ _.
            if_intro (Changes {A = Checkout} b) (is_export target) (λ _. unchanged)
              (λ _.
                if_intro (Changes {A = Checkout} b) (not monthly) (λ _. unchanged)
                  (λ _.
                    offered-Change (session_of now fresh company user target sku) fresh company a b
                      (session_of-pending now fresh company user target sku) new))))
  where
    unchanged : Change b (set_account company a b)
    unchanged = Change.kept refl refl

request_plan-Change :
    (now fresh company user : ℕ) (target : Option PricingPlan) (sku : Option ℕ) (monthly : Bool)
    (b : Books)
    → IsNew fresh b
    → Changes b (request_plan now fresh company user target sku monthly b)
request_plan-Change now fresh company user none sku monthly b new = Change.kept refl refl
request_plan-Change now fresh company user (some target) sku monthly b new =
    let r : Account × Snapshot = get_subscription_snapshot now (b.accounts company) in
    offer-Change now fresh company user target sku monthly r.1 r.0 b new

upgrade_subscription-Change :
    (now fresh company user : ℕ) (target : Option PricingPlan) (sku : Option ℕ) (monthly : Bool)
    (team : Team) (b : Books)
    → IsNew fresh b
    → Changes b (upgrade_subscription now fresh company user target sku monthly team b)
unfolding upgrade_subscription
upgrade_subscription-Change now fresh company user target sku monthly team b new =
    option_intro (Changes {A = Checkout} b) (find_active_role company user team)
      (λ _. Change.kept refl refl)
      (λ role _.
        if_intro (Changes {A = Checkout} b) (not (same_role role admin))
          (λ _. Change.kept refl refl)
          (λ _. request_plan-Change now fresh company user target sku monthly b new))

-- The histories: offers, results of the gateway and queries, in any order, each query on a session as
-- it was read at any time.
pub data Step (b : Books) : Books → Type 0 where
  asked :
      (now fresh company user : ℕ) (target : Option PricingPlan) (sku : Option ℕ) (monthly : Bool)
      (team : Team)
      → IsNew fresh b
      → Step b (upgrade_subscription now fresh company user target sku monthly team b).0
  completed : (now i : ℕ) (g : GatewayResult) → Step b (complete_upgrade now i g b).0
  reconciled :
      (mock : Bool) (now : ℕ) (seen : PaymentSession) (q : Query)
      → Step b (reconcile_pending_payment_session mock now seen q b)

pub data Reach (b : Books) : Books → Type 0 where
  here : Reach b b
  next : {mid last : Books} → Reach b mid → Step mid last → Reach b last

pub Step-Run : {b last : Books} → Step b last → Run b last
Step-Run {b} (Step.asked now fresh company user target sku monthly team new) =
    once (upgrade_subscription-Change now fresh company user target sku monthly team b new)
Step-Run {b} (Step.completed now i g) = once (complete_upgrade-Change now i g b)
Step-Run {b} (Step.reconciled mock now seen q) = reconcile-Run mock now seen q b

-- What every change keeps, every history keeps.
module _ (P : Books → Type 0) (keep : (b last : Books) → Change b last → P b → P last) where
  run_keeps : (b last : Books) → Run b last → P b → P last
  run_keeps b last Run.here h = h
  run_keeps b last (Run.next {mid} r c) h = keep mid last c (run_keeps b mid r h)

  pub Reach-keeps : (b last : Books) → Reach b last → P b → P last
  Reach-keeps b last Reach.here h = h
  Reach-keeps b last (Reach.next {mid} r step) h =
      run_keeps mid last (Step-Run step) (Reach-keeps b mid r h)
