-- ===== src/Subscriptions/Charges.antt =====
-- No payment session of src/services/subscriptionService.js leads to a second purchase.
use be_weavecarbon.Common.{
  ℕ, true, false, ◌≡◌, ◌≢◌, refl, sym, ap, ◌∙◌, subst, List, [], ◌∷◌, ◌==◌, ==_iff, arith, All,
  All-mem, All-update_where_to, count_where, mem-select_one, Bool-cases, inl, inr,
}
use be_weavecarbon.Subscriptions.Payments.{
  PaymentStatus, PaymentSession, PaymentEvent, Books, pending, success, failed_payment, cancelled,
  expired, is_pending, has_id, resolve, is_pending_id, expire,
}
use be_weavecarbon.Subscriptions.Moves.{is_purchase, expected, Change, Reach, Reach-keeps}

-- The purchases on record are one for a session that is paid and none for another.
abbrev pub AllCharged : List PaymentEvent → List PaymentSession → Type 0
AllCharged events sessions =
    All (λ s. count_where (is_purchase s.id) events ≡ expected s.status) sessions

abbrev pub IsCharged : Books → Type 0
IsCharged b = AllCharged b.events b.sessions

last-IsCharged :
    (last : Books) (sessions : List PaymentSession) (events : List PaymentEvent)
    → last.sessions ≡ sessions
    → last.events ≡ events
    → AllCharged events sessions
    → IsCharged last
last-IsCharged last sessions events e f h =
    subst (λ xs. AllCharged last.events xs) (sym e) (subst (λ es. AllCharged es sessions) (sym f) h)

-- An event about another session counts for nothing.
other_event :
    (e : PaymentEvent) (i : ℕ) (events : List PaymentEvent)
    → (e.entity_id == i) ≡ false
    → count_where (is_purchase i) (e ∷ events) ≡ count_where (is_purchase i) events
other_event e i events h = ground (arith, h)

no_events :
    (i : ℕ) (events : List PaymentEvent)
    → All (λ (e : PaymentEvent). e.entity_id ≢ i) events
    → count_where (is_purchase i) events ≡ 0
no_events i [] h = refl
no_events i (e ∷ events) (p, h) = elim (Bool-cases (e.entity_id == i)) [
  | inl t ↦ absurd (p ((==_iff e.entity_id i).0 t))
  | inr t ↦ other_event e i events t ∙ no_events i events h
]

pending_none : (s : PaymentStatus) → is_pending s ≡ true → expected s ≡ 0
pending_none pending h = refl
pending_none success h = absurd (cc)
pending_none failed_payment h = refl
pending_none cancelled h = refl
pending_none expired h = refl

Change-IsCharged : (b last : Books) → Change b last → IsCharged b → IsCharged last
Change-IsCharged b last (Change.kept e f) h = last-IsCharged last _ _ e f h
Change-IsCharged b last (Change.offered s at p e f n m) h =
    last-IsCharged last _ _ e f (no_events s.id b.events m ∙ sym (ap expected p), h)
Change-IsCharged b last (Change.noted i change at same keeps paid e f) h =
    last-IsCharged last _ _ e f (
      All-update_where_to (λ s. count_where (is_purchase s.id) b.events ≡ expected s.status)
        (λ s. count_where (is_purchase s.id) b.events ≡ expected s.status) (has_id i) change
        b.sessions (λ s t p. rw (same s, keeps s) p) (λ s t p. p) h)
Change-IsCharged b last (Change.lapsed i at e f) h = last-IsCharged last _ _ e f (
    All-update_where_to (λ s. count_where (is_purchase s.id) b.events ≡ expected s.status)
      (λ s. count_where (is_purchase s.id) b.events ≡ expected s.status) (is_pending_id i) expire
      b.sessions (λ s t p. p ∙ pending_none s.status (ground (arith, t))) (λ s t p. p) h)
Change-IsCharged b last (Change.settled now s status note name paid at found p named e f) h =
    last-IsCharged last _ _ e f (
      All-update_where_to (λ x. count_where (is_purchase x.id) b.events ≡ expected x.status)
        (λ x. count_where (is_purchase x.id) (event ∷ b.events) ≡ expected x.status) (has_id s.id)
        (resolve now status note paid) b.sessions (λ x t q. own x ((==_iff x.id s.id).0 t))
        (λ x t q. other_event event x.id b.events (apart x t) ∙ q) h)
  where
    event : PaymentEvent
    event = record { event_name = name; entity_id = s.id }

    before : count_where (is_purchase s.id) b.events ≡ 0
    before =
        All-mem (λ x. count_where (is_purchase x.id) b.events ≡ expected x.status) b.sessions
          (mem-select_one (has_id s.id) b.sessions s found) h
        ∙ ap expected p

    apart : (x : PaymentSession) → has_id s.id x ≡ false → (s.id == x.id) ≡ false
    apart x t = ground arith

    own :
        (x : PaymentSession)
        → x.id ≡ s.id
        → count_where (is_purchase x.id) (event ∷ b.events) ≡ expected status
    own x k =
        subst (λ i. count_where (is_purchase i) (event ∷ b.events) ≡ expected status) (sym k)
          (rw (named, (==_iff s.id s.id).1 refl, before) (ground arith))

-- In every history of offers, results of the gateway and queries, as many purchases are on record for
-- a session as it is paid: one for a paid session, none for another.
pub Reach-IsCharged : (b last : Books) → Reach b last → IsCharged b → IsCharged last
Reach-IsCharged = Reach-keeps IsCharged Change-IsCharged
