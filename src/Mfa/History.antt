-- ===== src/Mfa/History.antt =====
-- Histories of the second factor (src/modules/auth/mfaService.js): the order of its revisions and
-- what the tables keep.
use mathlib.Core.List.{Memᴰ}
use be_weavecarbon.Common.{
  ℕ, ◌≤◌, ◌<◌, String, Bool, ◌≡◌, refl, Option, List, [], ◌∷◌, arith, not, All, All-map, is_some,
  if_intro, option_intro, str_eq, select_one,
}
use be_weavecarbon.Mfa.Factors.{
  Factor, Store, RecoveryHash, Consumption, Answer, latest, is_consumption, max_revision,
  next_revision, with_factor, consume, active, is_pending,
}
use be_weavecarbon.Mfa.Challenges.{
  verify_challenge, use_recovery, matches, verify_totp, begin_enrollment, confirm_enrollment,
  disable,
}

-- The later a row was written, the higher its revision among those of its user.
abbrev pub IsOrdered : List Factor → Type 0
IsOrdered [] = Unit
IsOrdered (f ∷ factors) =
    All (λ g. g.user_id ≡ f.user_id → g.revision < f.revision) factors × IsOrdered factors

max_revision-bound :
    (user : ℕ) (factors : List Factor)
    → All (λ g. g.user_id ≡ user → g.revision ≤ max_revision user factors) factors
max_revision-bound user [] = tt
max_revision-bound user (f ∷ factors) = (
  (λ e. ground arith),
  All-map _ _ factors (λ g h e. grow (h e)) (max_revision-bound user factors),
)
  where
    grow : {n : ℕ} → n ≤ max_revision user factors → n ≤ max_revision user (f ∷ factors)
    grow {n} h = ground arith

-- The next revision is above all that the user has.
pub next_revision-bound :
    (user : ℕ) (factors : List Factor)
    → All (λ g. g.user_id ≡ user → g.revision < next_revision user factors) factors
unfolding next_revision
next_revision-bound user factors =
    All-map _ _ factors (λ g h e. omega (arith, h e)) (max_revision-bound user factors)

-- A state that follows another: its revisions are ordered, and it has every row of the other.
pub record Follows (old last : Store) : Type 0 where
  pub ordered : IsOrdered old.factors → IsOrdered last.factors
  pub factors : (f : Factor) → Memᴰ f old.factors → Memᴰ f last.factors
  pub consumptions : (c : Consumption) → Memᴰ c old.consumptions → Memᴰ c last.consumptions

pub Follows-refl : (s : Store) → Follows s s
Follows-refl s = record { ordered = λ h. h; factors = λ f m. m; consumptions = λ c m. m }

pub Follows-trans : {r s t : Store} → Follows r s → Follows s t → Follows r t
Follows-trans h k = record {
  ordered = λ o. k.ordered (h.ordered o);
  factors = λ f m. k.factors f (h.factors f m);
  consumptions = λ c m. k.consumptions c (h.consumptions c m);
}

pub with_factor-Follows :
    (f : Factor) (s : Store)
    → f.revision ≡ next_revision f.user_id s.factors
    → Follows s (with_factor f s).0
with_factor-Follows f s e = record {
  ordered = λ o. (
    All-map _ _ s.factors (λ g h same. rw e (h same)) (next_revision-bound f.user_id s.factors),
    o,
  );
  factors = λ g m. Memᴰ.tail m;
  consumptions = λ c m. m;
}

consume-Follows :
    (user factor : ℕ) (hash : String) (s : Store) → Follows s (consume user factor hash s).0
unfolding consume
consume-Follows user factor hash s =
    if_intro (λ (r : Store × Bool). Follows s r.0)
      (is_some (select_one (is_consumption factor hash) s.consumptions)) (λ _. Follows-refl s)
      (λ _. record { ordered = λ h. h; factors = λ f m. m; consumptions = λ c m. Memᴰ.tail m })

module _ (unseal : Option String → ℕ → String) (code_at : String → ℕ → String)
    (digest : String → String → String) (is_code : String → Bool)
    (is_password : ℕ → String → Bool) where
  abbrev challenge : ℕ → ℕ → String → Store → Store × Bool
  challenge = verify_challenge unseal code_at digest is_code is_password

  pub use_recovery-Follows :
      (user : ℕ) (factor : Factor) (code : String) (s : Store)
      → Follows s (use_recovery unseal code_at digest is_code is_password user factor code s).0
  unfolding use_recovery
  use_recovery-Follows user factor code s =
      option_intro (λ (r : Store × Bool). Follows s r.0)
        (select_one (matches unseal code_at digest is_code is_password code)
          factor.recovery_code_hashes)
        (λ _. Follows-refl s) (λ item _. consume-Follows user factor.id item.hash s)

  verify_challenge-Follows :
      (now user : ℕ) (code : String) (s : Store) → Follows s (challenge now user code s).0
  unfolding verify_challenge
  verify_challenge-Follows now user code s =
      option_intro (λ (r : Store × Bool). Follows s r.0) (active user s.factors)
        (λ _. Follows-refl s)
        (λ f _.
          if_intro (λ (r : Store × Bool). Follows s r.0)
            (verify_totp unseal code_at digest is_code is_password now (unseal f.secret user) code)
            (λ _. Follows-refl s) (λ _. use_recovery-Follows user f code s))

  -- What an operation on the second factor makes of the store.
  pub data Step : Store → Store → Type 0 where
    challenged : (now user : ℕ) (code : String) {s : Store} → Step s (challenge now user code s).0
    began :
        (now fresh user : ℕ) (password code sealed : String) {s : Store}
        → Step s
            (begin_enrollment unseal code_at digest is_code is_password now fresh user password code
              sealed s).0
    confirmed :
        (now fresh user : ℕ) (code : String) (hashes : List RecoveryHash) {s : Store}
        → Step s
            (confirm_enrollment unseal code_at digest is_code is_password now fresh user code hashes
              s).0
    switched_off :
        (now fresh user : ℕ) (password code reason : String) {s : Store}
        → Step s
            (disable unseal code_at digest is_code is_password now fresh user password code reason
              s).0

  pub data Reach : Store → Store → Type 0 where
    here : {s : Store} → Reach s s
    further : {r s t : Store} → Reach r s → Step s t → Reach r t

  abbrev Kept : Store → Store × Answer → Type 0
  Kept s r = Follows s r.0

  begin_enrollment-Follows :
      (now fresh user : ℕ) (password code sealed : String) (s : Store)
      → Follows s
          (begin_enrollment unseal code_at digest is_code is_password now fresh user password code
            sealed s).0
  unfolding begin_enrollment
  begin_enrollment-Follows now fresh user password code sealed s =
      if_intro (Kept s) (not (is_password user password)) (λ _. Follows-refl s)
        (λ _.
          if_intro (Kept s) (not (is_some (active user s.factors)))
            (λ _. with_factor-Follows _ s refl)
            (λ _.
              if_intro (Kept s) (not (challenge now user code s).1) (λ _. Follows-refl s)
                (λ _.
                  Follows-trans (verify_challenge-Follows now user code s)
                    (with_factor-Follows _ (challenge now user code s).0 refl))))

  confirm_enrollment-Follows :
      (now fresh user : ℕ) (code : String) (hashes : List RecoveryHash) (s : Store)
      → Follows s
          (confirm_enrollment unseal code_at digest is_code is_password now fresh user code hashes
            s).0
  unfolding confirm_enrollment
  confirm_enrollment-Follows now fresh user code hashes s =
      option_intro (Kept s) (latest user s.factors) (λ _. Follows-refl s)
        (λ offer _.
          if_intro (Kept s) (not (is_pending offer.status)) (λ _. Follows-refl s)
            (λ _.
              if_intro (Kept s)
                (not (
                  verify_totp unseal code_at digest is_code is_password now
                    (unseal offer.secret user) code))
                (λ _. Follows-refl s) (λ _. with_factor-Follows _ s refl)))

  disable-Follows :
      (now fresh user : ℕ) (password code reason : String) (s : Store)
      → Follows s
          (disable unseal code_at digest is_code is_password now fresh user password code reason
            s).0
  unfolding disable
  disable-Follows now fresh user password code reason s =
      if_intro (Kept s) (str_eq reason "") (λ _. Follows-refl s)
        (λ _.
          if_intro (Kept s) (not (is_password user password)) (λ _. Follows-refl s)
            (λ _.
              if_intro (Kept s) (not (challenge now user code s).1) (λ _. Follows-refl s)
                (λ _.
                  Follows-trans (verify_challenge-Follows now user code s)
                    (with_factor-Follows _ (challenge now user code s).0 refl))))

  Step-Follows : {s t : Store} → Step s t → Follows s t
  Step-Follows (Step.challenged now user code {s}) = verify_challenge-Follows now user code s
  Step-Follows (Step.began now fresh user password code sealed {s}) =
      begin_enrollment-Follows now fresh user password code sealed s
  Step-Follows (Step.confirmed now fresh user code hashes {s}) =
      confirm_enrollment-Follows now fresh user code hashes s
  Step-Follows (Step.switched_off now fresh user password code reason {s}) =
      disable-Follows now fresh user password code reason s

  -- Through every history of enrolments, confirmations, challenges and deactivations the revisions
  -- of a user go up in the order of writing, and no revision and no use of a recovery code is lost.
  pub Reach-Follows : {s t : Store} → Reach s t → Follows s t
  Reach-Follows (Reach.here {s}) = Follows-refl s
  Reach-Follows (Reach.further h step) = Follows-trans (Reach-Follows h) (Step-Follows step)
