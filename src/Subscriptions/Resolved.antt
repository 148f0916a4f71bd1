-- ===== src/Subscriptions/Resolved.antt =====
-- What is settled of a payment session of src/services/subscriptionService.js stays so.
use be_weavecarbon.Common.{
  ℕ, true, false, ◌≡◌, ◌≢◌, refl, sym, ap, ◌∙◌, subst, Option, List, ◌==◌, ==_iff, arith, any, All,
  All-mem, All-update_where, any-found, any-update_where, mem-select_one,
}
use be_weavecarbon.Subscriptions.Payments.{
  PaymentStatus, PaymentSession, Books, is_pending, has_id, resolve, is_pending_id, expire,
}
use be_weavecarbon.Subscriptions.Moves.{Change, Reach, Reach-keeps}

module _ (i : ℕ) (status : PaymentStatus) (paid : Option ℕ) where
  abbrev pub Keeps : PaymentSession → Type 0
  Keeps s = s.id ≡ i → (s.status ≡ status) × (s.paid_at ≡ paid)

  -- The session `i` is there, with this status and this time of payment.
  abbrev pub IsResolved : Books → Type 0
  IsResolved b = (any (has_id i) b.sessions ≡ true) × All Keeps b.sessions

  last-IsResolved :
      (last : Books) (sessions : List PaymentSession)
      → last.sessions ≡ sessions
      → (any (has_id i) sessions ≡ true) × All Keeps sessions
      → IsResolved last
  last-IsResolved last sessions e h =
      subst (λ xs. (any (has_id i) xs ≡ true) × All Keeps xs) (sym e) h

  module _ (over : is_pending status ≡ false) where
    clash {ℓ} :
        {A : Type ℓ} (s : PaymentSession) → is_pending s.status ≡ true → s.status ≡ status → A
    clash s p q = absurd (cc (over, p, ap is_pending q))

    Change-IsResolved : (b last : Books) → Change b last → IsResolved b → IsResolved last
    Change-IsResolved b last (Change.kept e f) h = last-IsResolved last _ e h
    Change-IsResolved b last (Change.offered s at p e f n m) h =
        let x = any-found (has_id i) b.sessions h.0 in
        let fresh : s.id ≢ i =
          λ k. All-mem (λ y. y.id ≢ s.id) b.sessions x.1 n ((==_iff x.0.id i).0 x.2 ∙ sym k) in
        last-IsResolved last _ e (ground (arith, h.0), ((λ k. absurd (fresh k)), h.1))
    Change-IsResolved b last (Change.noted k change at same keeps times e f) h =
        last-IsResolved last _ e (
          any-update_where (has_id i) (has_id k) change b.sessions (λ s. ap (λ n. n == i) (same s))
              ∙ h.0,
          All-update_where Keeps (has_id k) change b.sessions
              (λ s t p q. (keeps s ∙ (p (sym (same s) ∙ q)).0, times s ∙ (p (sym (same s) ∙ q)).1))
              h.1,
        )
    Change-IsResolved b last (Change.lapsed k at e f) h = last-IsResolved last _ e (
      any-update_where (has_id i) (is_pending_id k) expire b.sessions (λ s. refl) ∙ h.0,
      All-update_where Keeps (is_pending_id k) expire b.sessions
          (λ s t p q. clash s (ground (arith, t)) (p q).0) h.1,
    )
    Change-IsResolved b last (Change.settled now s final note name time at found p named e f) h =
        last-IsResolved last _ e (
          any-update_where (has_id i) (has_id s.id) (resolve now final note time) b.sessions
                (λ s. refl)
              ∙ h.0,
          All-update_where Keeps (has_id s.id) (resolve now final note time) b.sessions
              (λ x t q k.
                clash s (ap is_pending p)
                  (All-mem Keeps b.sessions (mem-select_one (has_id s.id) b.sessions s found) h.1
                    (sym ((==_iff x.id s.id).0 t) ∙ k)).0)
              h.1,
        )

-- A session that is paid, failed, cancelled or expired has the same status and the same time of
-- payment after every later history of offers, results of the gateway and queries.
pub Reach-IsResolved :
    (i : ℕ) (status : PaymentStatus) (paid : Option ℕ) (b last : Books)
    → is_pending status ≡ false
    → Reach b last
    → IsResolved i status paid b
    → IsResolved i status paid last
Reach-IsResolved i status paid b last over =
    Reach-keeps (IsResolved i status paid) (Change-IsResolved i status paid over) b last
