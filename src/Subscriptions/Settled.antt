-- ===== src/Subscriptions/Settled.antt =====
-- A snapshot of a subscription (src/services/subscriptionService.js) settles what it writes.
use be_weavecarbon.Common.{
  ℕ, ◌≤◌, Bool, true, false, ◌≡◌, refl, sym, ap, subst, ◌∙◌, arith, leb, ◌==◌, inl, inr, Bool-cases,
  if_intro, if◌then◌else◌,
}
use be_weavecarbon.Subscriptions.Plans.{
  PricingPlan, Account, Cycle, Snapshot, trial, standard, standard_20, standard_35, standard_50,
  export_plan, normalize_plan_id, is_standard_plan, infer_legacy_sku_limit, cycle_of, with_term,
  with_limit, limit_of, end_of, with_rows, snapshot_of, standard_snapshot,
  get_subscription_snapshot, is_trial, days_remaining,
}

infer-positive : (raw : PricingPlan) → (infer_legacy_sku_limit raw 20 == 0) ≡ false
unfolding infer_legacy_sku_limit
infer-positive trial = refl
infer-positive standard = refl
infer-positive standard_20 = refl
infer-positive standard_35 = refl
infer-positive standard_50 = refl
infer-positive export_plan = refl

limit_of-positive : (raw : PricingPlan) (c : Cycle) → (limit_of raw c == 0) ≡ false
limit_of-positive raw c =
    if_intro (λ m. (m == 0) ≡ false) (c.standard_sku_limit == 0) (λ _. infer-positive raw) (λ t. t)

-- Where the term and the limit are set, both stay.
standard-fixed :
    (now later : ℕ) (raw raw' : PricingPlan) (c : Cycle)
    → with_term later (with_limit raw' (with_term now (with_limit raw c)))
      ≡ with_term now (with_limit raw c)
standard-fixed now later raw raw' c = rw (limit_of-positive raw c) refl

normalize-fixed :
    (plan : PricingPlan) → normalize_plan_id (normalize_plan_id plan) ≡ normalize_plan_id plan
unfolding normalize_plan_id
normalize-fixed trial = refl
normalize-fixed standard = refl
normalize-fixed standard_20 = refl
normalize-fixed standard_35 = refl
normalize-fixed standard_50 = refl
normalize-fixed export_plan = refl

-- After a snapshot, another at the same time writes nothing more, and says the same of the plan and
-- of the lock.
pub record IsSettled (now : ℕ) (first : Account × Snapshot) : Type 0 where
  pub same_rows : (get_subscription_snapshot now first.0).0 ≡ first.0
  pub same_plan : (get_subscription_snapshot now first.0).1.current_plan ≡ first.1.current_plan
  pub same_lock :
      (get_subscription_snapshot now first.0).1.features_locked ≡ first.1.features_locked

get-other :
    (now : ℕ) (a : Account)
    → is_standard_plan (normalize_plan_id a.current_plan) ≡ false
    → get_subscription_snapshot now a ≡ (
      with_rows (normalize_plan_id a.current_plan) (cycle_of a) a,
      snapshot_of now (normalize_plan_id a.current_plan) false 0 (cycle_of a),
    )
unfolding get_subscription_snapshot
get-other now a e = rw (e, get_subscription_snapshot) refl

get-standard :
    (now : ℕ) (a : Account)
    → is_standard_plan (normalize_plan_id a.current_plan) ≡ true
    → get_subscription_snapshot now a
      ≡ standard_snapshot now
          (end_of now (cycle_of a))
          (with_term now (with_limit a.current_plan (cycle_of a)))
          a
unfolding get_subscription_snapshot
get-standard now a e = rw (e, get_subscription_snapshot) refl

get-trial :
    (now : ℕ) (c : Cycle) (a : Account)
    → get_subscription_snapshot now (with_rows trial c a)
      ≡ (with_rows trial c a, snapshot_of now trial false 0 c)
unfolding normalize_plan_id is_standard_plan cycle_of
get-trial now c a = get-other now (with_rows trial c a) refl

-- With the plan standard, in a cycle whose term and limit a snapshot has set.
get-running :
    (now later : ℕ) (raw : PricingPlan) (c : Cycle) (a : Account)
    → let last : Cycle = with_term now (with_limit raw c) in
      get_subscription_snapshot later (with_rows standard last a)
      ≡ standard_snapshot later (end_of now c) last (with_rows standard last a)
unfolding normalize_plan_id is_standard_plan cycle_of
get-running now later raw c a =
    let last : Cycle = with_term now (with_limit raw c) in
    get-standard later (with_rows standard last a) refl
    ∙ ap (λ (d : Cycle). standard_snapshot later (end_of now c) d (with_rows standard last a))
        (standard-fixed now later raw standard c)

standard-IsSettled :
    (now : ℕ) (raw : PricingPlan) (c : Cycle) (a : Account)
    → IsSettled now (standard_snapshot now (end_of now c) (with_term now (with_limit raw c)) a)
standard-IsSettled now raw c a = elim (Bool-cases (leb (end_of now c) now)) [
  | inl e ↦
      let again = get-trial now (with_term now (with_limit raw c)) a in
      rw e (record {
        same_rows = ap (λ (r : Account × Snapshot). r.0) again;
        same_plan = ap (λ (r : Account × Snapshot). r.1.current_plan) again;
        same_lock = ap (λ (r : Account × Snapshot). r.1.features_locked) again;
      })
  | inr e ↦
      let again = get-running now now raw c a in
      rw e (record {
        same_rows = ap (λ (r : Account × Snapshot). r.0) again ∙ rw e refl;
        same_plan = ap (λ (r : Account × Snapshot). r.1.current_plan) again ∙ rw e refl;
        same_lock = ap (λ (r : Account × Snapshot). r.1.features_locked) again ∙ rw e refl;
      })
]

other-IsSettled :
    (now : ℕ) (plan : PricingPlan) (c : Cycle) (a : Account)
    → normalize_plan_id plan ≡ plan
    → is_standard_plan plan ≡ false
    → IsSettled now (with_rows plan c a, snapshot_of now plan false 0 c)
unfolding cycle_of
other-IsSettled now plan c a fixed e =
    let off : is_standard_plan (normalize_plan_id plan) ≡ false = rw fixed e in
    let again = get-other now (with_rows plan c a) off in
    record {
      same_rows = ap (λ (r : Account × Snapshot). r.0) again ∙ rw fixed refl;
      same_plan = ap (λ (r : Account × Snapshot). r.1.current_plan) again ∙ fixed;
      same_lock = ap (λ (r : Account × Snapshot). r.1.features_locked) again ∙ rw fixed refl;
    }

-- A snapshot settles what it writes: another at the same time leaves the rows as they are and says
-- the same of the plan and of the lock.
pub get_subscription_snapshot-IsSettled :
    (now : ℕ) (a : Account) → IsSettled now (get_subscription_snapshot now a)
get_subscription_snapshot-IsSettled now a =
    let plan : PricingPlan = normalize_plan_id a.current_plan in
    elim (Bool-cases (is_standard_plan plan)) [
      | inl e ↦
          subst (IsSettled now) (sym (get-standard now a e))
            (standard-IsSettled now a.current_plan (cycle_of a) a)
      | inr e ↦
          subst (IsSettled now) (sym (get-other now a e))
            (other-IsSettled now plan (cycle_of a) a (normalize-fixed a.current_plan) e)
    ]

is_trial-plan : (plan : PricingPlan) → is_trial plan ≡ true → plan ≡ trial
is_trial-plan trial e = refl
is_trial-plan standard e = absurd (cc)
is_trial-plan standard_20 e = absurd (cc)
is_trial-plan standard_35 e = absurd (cc)
is_trial-plan standard_50 e = absurd (cc)
is_trial-plan export_plan e = absurd (cc)

-- What a snapshot that locks the features leaves: the trial, in a cycle whose trial is over.
record IsLocked (now : ℕ) (a : Account) : Type 0 where
  cycle : Cycle
  rows : a ≡ with_rows trial cycle a
  over : leb cycle.trial_ends_at now ≡ true

locked-later :
    (now later : ℕ) (a : Account)
    → now ≤ later
    → IsLocked now a
    → (get_subscription_snapshot later a).1.features_locked ≡ true
locked-later now later a le h =
    ap (λ (b : Account). (get_subscription_snapshot later b).1.features_locked) h.rows
    ∙ ap (λ (r : Account × Snapshot). r.1.features_locked) (get-trial later h.cycle a)
    ∙ ground (arith, h.over)

rows-IsLocked :
    (now : ℕ) (plan : PricingPlan) (expired : Bool) (left : ℕ) (c : Cycle) (a : Account)
    → (snapshot_of now plan expired left c).features_locked ≡ true
    → IsLocked now (with_rows plan c a)
rows-IsLocked now plan expired left c a e =
    let t : is_trial plan ≡ true = ground arith in
    record {
      cycle = c;
      rows = ap (λ p. with_rows p c a) (is_trial-plan plan t);
      over = ground arith;
    }

snapshot-IsLocked :
    (now : ℕ) (a : Account)
    → (get_subscription_snapshot now a).1.features_locked ≡ true
    → IsLocked now (get_subscription_snapshot now a).0
snapshot-IsLocked now a =
    let plan : PricingPlan = normalize_plan_id a.current_plan in
    elim (Bool-cases (is_standard_plan plan)) [
      | inr e ↦
          subst Locks (sym (get-other now a e)) (rows-IsLocked now plan false 0 (cycle_of a) a)
      | inl e ↦
          let end : ℕ = end_of now (cycle_of a) in
          subst Locks (sym (get-standard now a e)) (
            rows-IsLocked now (if leb end now then trial else standard) (leb end now)
              (days_remaining now end) (with_term now (with_limit a.current_plan (cycle_of a))) a)
    ]
  where
    Locks : Account × Snapshot → Type 0
    Locks r = r.1.features_locked ≡ true → IsLocked now r.0

-- Features that a snapshot finds locked are found locked by every later one, until the rows are
-- written by something else.
pub get_subscription_snapshot-stays_locked :
    (now later : ℕ) (a : Account)
    → now ≤ later
    → (get_subscription_snapshot now a).1.features_locked ≡ true
    → (get_subscription_snapshot later (get_subscription_snapshot now a).0).1.features_locked ≡ true
get_subscription_snapshot-stays_locked now later a le e =
    locked-later now later (get_subscription_snapshot now a).0 le (snapshot-IsLocked now a e)
