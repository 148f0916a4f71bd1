-- ===== src/Subscriptions/Payments.antt =====
-- The payment sessions of a subscription: `completeUpgrade`, `updatePaymentSessionMetadata` and
-- `reconcilePendingPaymentSession` of src/services/subscriptionService.js, with
-- src/services/subscriptionService/helpers.js and the results of vnpay.js. The company of a session
-- exists, by its foreign key. Amounts are in dong, those of the gateway in hundredths; an absent
-- number of the gateway is 0, an absent code the empty text.
use be_weavecarbon.Common.{
  ℕ, ◌+◌, ◌-◌, ◌*◌, String, Bool, true, false, not, ◌&&◌, ◌||◌, Option, none, some, List, ◌∷◌, ltb,
  ◌==◌, str_eq, if◌then◌else◌, select_one, update_where,
}
use be_weavecarbon.Subscriptions.Plans.{
  PricingPlan, Account, Cycle, trial, standard, day_ms, is_standard_plan, is_trial,
  infer_legacy_sku_limit, cycle_of, get_subscription_snapshot,
}

pub data PaymentStatus : Type 0 where
  pending : PaymentStatus
  success : PaymentStatus
  failed_payment : PaymentStatus
  cancelled : PaymentStatus
  expired : PaymentStatus

-- The keys of `metadata` on which later steps depend.
pub record Metadata : Type 0 where
  pub standard_sku_increment : Option ℕ
  pub requested_standard_sku_limit : Option ℕ
  pub vnpay_last_checked_at : Option ℕ
  pub last_payment_resolution : Option String

pub record PaymentSession : Type 0 where
  pub id : ℕ
  pub company_id : ℕ
  pub user_id : ℕ
  pub target_plan : PricingPlan
  pub amount : ℕ
  pub status : PaymentStatus
  pub expires_at : ℕ
  pub paid_at : Option ℕ
  pub metadata : Metadata

-- An event about a session that is handed to the analytics (`pushTransactionalAnalyticsEvent`), which
-- may fail to keep it.
pub record PaymentEvent : Type 0 where
  pub event_name : String
  pub entity_id : ℕ

pub record Books : Type 0 where
  pub sessions : List PaymentSession
  pub accounts : ℕ → Account
  pub events : List PaymentEvent

pub data Outcome {ℓ} (A : Type ℓ) : Type ℓ where
  done : A → Outcome A
  failed : String → Outcome A

pub data PublicStatus : Type 0 where
  public_paid : PublicStatus
  public_expired : PublicStatus
  public_failed : PublicStatus
  public_pending : PublicStatus

-- `toPublicPaymentStatus`
unfoldable pub to_public_payment_status : PaymentStatus → PublicStatus
to_public_payment_status success = public_paid
to_public_payment_status expired = public_expired
to_public_payment_status failed_payment = public_failed
to_public_payment_status cancelled = public_failed
to_public_payment_status pending = public_pending

abbrev pub is_pending : PaymentStatus → Bool
is_pending pending = true
is_pending _ = false

-- `isPaymentSessionExpired`
abbrev pub is_payment_session_expired : ℕ → PaymentSession → Bool
is_payment_session_expired now s = ltb s.expires_at now

-- `isSuccessfulVnpayResult` and `isFailedVnpayResult` of trimmed codes.
unfoldable pub is_successful_vnpay_result : String → String → Bool
is_successful_vnpay_result code transaction_status =
    str_eq code "00" && (str_eq transaction_status "" || str_eq transaction_status "00")

unfoldable pub is_failed_vnpay_result : String → String → Bool
is_failed_vnpay_result code transaction_status =
    (not (str_eq code "") && not (str_eq code "00"))
    || (not (str_eq transaction_status "") && not (str_eq transaction_status "00"))

abbrev pub has_id : ℕ → PaymentSession → Bool
has_id i s = s.id == i

abbrev pub find_session : ℕ → Books → Option PaymentSession
find_session i b = select_one (has_id i) b.sessions

abbrev pub resolved_metadata : ℕ → String → Metadata → Metadata
resolved_metadata now resolution m = record m {
  vnpay_last_checked_at = some now;
  last_payment_resolution = some resolution;
}

-- `UPDATE subscription_payment_sessions SET status, metadata`, and `paid_at` on success.
abbrev pub resolve : ℕ → PaymentStatus → String → Option ℕ → PaymentSession → PaymentSession
resolve now status resolution paid s = record s {
  status = status;
  paid_at = paid;
  metadata = resolved_metadata now resolution s.metadata;
}

abbrev pub close_session : ℕ → ℕ → PaymentStatus → String → Option ℕ → Books → Books
close_session now i status resolution paid b = record b {
  sessions = update_where (has_id i) (resolve now status resolution paid) b.sessions;
}

abbrev pub with_event : String → ℕ → Books → Books
with_event name i b = record b { events = (record { event_name = name; entity_id = i }) ∷ b.events }

-- What the gateway says of a payment.
pub record GatewayResult : Type 0 where
  pub code : String
  pub transaction_status : String
  pub amount : ℕ
  pub pay_date : Option ℕ

pub data Completion : Type 0 where
  already_completed : Completion
  already_resolved : Completion
  session_expired : Completion
  not_successful : Completion
  upgraded : PricingPlan → Option ℕ → Completion

abbrev pub or_number : Option ℕ → ℕ → ℕ
or_number none n = n
or_number (some m) n = if m == 0 then n else m

-- `purchasedSkuIncrement`
unfoldable pub purchased_sku_increment : PaymentSession → ℕ
purchased_sku_increment s =
    let asked = or_number s.metadata.standard_sku_increment (
      or_number s.metadata.requested_standard_sku_limit
        (infer_legacy_sku_limit s.target_plan 20)) in
    if ltb asked 20 then 20 else asked

-- `currentStandardSkuLimit` of the snapshot.
abbrev pub current_limit : ℕ → Account → ℕ
current_limit now a =
    let r = get_subscription_snapshot now a in
    if is_standard_plan r.1.current_plan then r.1.standard_sku_limit else 0

abbrev pub standard_cycle : ℕ → ℕ → Cycle → Cycle
standard_cycle now limit c = record c {
  standard_started_at = some now;
  standard_expires_at = some (now + 30 * day_ms);
  standard_sku_limit = limit;
}

-- A purchase of a standard plan adds to the limit and opens a term of thirty days.
unfoldable pub grant_standard : ℕ → PaymentSession → Account → Account
grant_standard now s a =
    let settled = (get_subscription_snapshot now a).0 in
    record settled {
      current_plan = standard;
      cycle =
          some (
            standard_cycle now (current_limit now a + purchased_sku_increment s)
              (cycle_of settled));
    }

abbrev pub trial_cycle : ℕ → Cycle → Cycle
trial_cycle now c = record c { trial_started_at = now; trial_ends_at = now + 30 * day_ms }

unfoldable pub grant_trial : ℕ → Account → Account
grant_trial now a = record a { current_plan = trial; cycle = some (trial_cycle now (cycle_of a)) }

abbrev pub set_account : ℕ → Account → Books → Books
set_account company a b = record b {
  accounts = λ (c : ℕ). if c == company then a else b.accounts c;
}

abbrev pub paid_time : ℕ → Option ℕ → Option ℕ
paid_time now none = some now
paid_time now (some at) = some at

-- The rest of the transaction that began in `before`, once the session is marked as paid.
abbrev pub grant : ℕ → PaymentSession → Books → Books → Books × Outcome Completion
grant now s before b =
    if is_standard_plan s.target_plan
    then (
      with_event "purchase" s.id
          (set_account s.company_id (grant_standard now s (b.accounts s.company_id)) b),
      done (
          upgraded standard
            (some (current_limit now (b.accounts s.company_id) + purchased_sku_increment s))),
    )
    else if is_trial s.target_plan
    then (
      with_event "purchase" s.id
          (set_account s.company_id (grant_trial now (b.accounts s.company_id)) b),
      done (upgraded trial none),
    )
    else (before, failed "UNSUPPORTED_PLAN")

-- A pending session with the result of the gateway.
abbrev pub settle : ℕ → PaymentSession → GatewayResult → Books → Books × Outcome Completion
settle now s g b =
    if is_payment_session_expired now s
    then (
      with_event "wc_payment_failed" s.id (close_session now s.id expired "expired" s.paid_at b),
      done session_expired,
    )
    else if not (g.amount == 0) && not (g.amount == s.amount * 100)
    then (b, failed "INVALID_PAYMENT_AMOUNT")
    else if not (is_successful_vnpay_result g.code g.transaction_status)
    then (
      with_event "wc_payment_failed" s.id
          (close_session now s.id failed_payment "failed" s.paid_at b),
      done not_successful,
    )
    else grant now s b (close_session now s.id success "paid" (paid_time now g.pay_date) b)

abbrev pub settle_status :
    ℕ → PaymentSession → GatewayResult → Books → PaymentStatus → Books × Outcome Completion
settle_status now s g b success = (b, done already_completed)
settle_status now s g b failed_payment = (b, done already_resolved)
settle_status now s g b cancelled = (b, done already_resolved)
settle_status now s g b expired = (b, done already_resolved)
settle_status now s g b pending = settle now s g b

unfoldable pub complete_upgrade : ℕ → ℕ → GatewayResult → Books → Books × Outcome Completion
complete_upgrade now i g b = elim (find_session i b) [
  | none ↦ (b, failed "SESSION_NOT_FOUND")
  | some s ↦ settle_status now s g b s.status
]

-- `updatePaymentSessionMetadata` with the time of the check.
abbrev pub checked : ℕ → Option String → PaymentSession → PaymentSession
checked now resolution s = record s {
  metadata = record s.metadata {
    vnpay_last_checked_at = some now;
    last_payment_resolution = elim resolution [
      | none ↦ s.metadata.last_payment_resolution
      | some r ↦ some r
    ];
  };
}

abbrev pub update_metadata : ℕ → ℕ → Option String → Books → Books
update_metadata now i resolution b = record b {
  sessions = update_where (has_id i) (checked now resolution) b.sessions;
}

-- What becomes of the query to the gateway.
pub data Query : Type 0 where
  request_failed : Query
  unverified : Query
  answered : GatewayResult → Query

abbrev pub is_pending_id : ℕ → PaymentSession → Bool
is_pending_id i s = s.id == i && is_pending s.status

abbrev pub expire : PaymentSession → PaymentSession
expire s = record s { status = expired }

-- `SET status = 'expired' ... AND status = 'pending'`
abbrev pub expire_pending : ℕ → Books → Books
expire_pending i b = record b { sessions = update_where (is_pending_id i) expire b.sessions }

abbrev pub is_recent : ℕ → Metadata → Bool
is_recent now m = elim m.vnpay_last_checked_at [
  | none ↦ false
  | some at ↦ not (at == 0) && ltb (now - at) 10000
]

-- `responseCode || '99'`
abbrev pub with_code : GatewayResult → GatewayResult
with_code g = record g { code = if str_eq g.code "" then "99" else g.code }

-- The answer of the gateway, on the amount that `seen` has.
abbrev pub on_answer : ℕ → PaymentSession → GatewayResult → Books → Books
on_answer now seen g b =
    if not (g.amount == 0) && not (g.amount == seen.amount * 100)
    then update_metadata now seen.id (some "amount_mismatch") b
    else if is_successful_vnpay_result g.code g.transaction_status
    then (complete_upgrade now seen.id g b).0
    else if is_failed_vnpay_result g.code g.transaction_status
    then (complete_upgrade now seen.id (with_code g) b).0
    else update_metadata now seen.id none b

abbrev pub on_query : ℕ → PaymentSession → Query → Books → Books
on_query now seen request_failed b = update_metadata now seen.id none b
on_query now seen unverified b = update_metadata now seen.id none b
on_query now seen (answered g) b = on_answer now seen g b

-- `reconcilePendingPaymentSession`: `seen` is the session as it was read; the statements that follow
-- run on the books of a later time.
unfoldable pub reconcile_pending_payment_session : Bool → ℕ → PaymentSession → Query → Books → Books
reconcile_pending_payment_session mock now seen q b =
    if not (is_pending seen.status)
    then b
    else if is_payment_session_expired now seen
    then expire_pending seen.id (update_metadata now seen.id (some "expired") b)
    else if mock
    then b
    else if is_recent now seen.metadata
    then b
    else on_query now seen q b
