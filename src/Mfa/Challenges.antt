-- ===== src/Mfa/Challenges.antt =====
-- Challenges, enrolment, confirmation and deactivation of src/modules/auth/mfaService.js. Each is one
-- step: enrolment, confirmation and deactivation hold the advisory lock of their user, and a
-- challenge writes with one statement. The codes are given trimmed.
-- Parameters: `unseal` is `decryptSecret` for a user, `code_at` the digits that a secret gives at a
-- counter (HMAC-SHA1), `digest` is `recoveryHash` of a code and a salt (scrypt), `is_password` the
-- comparison with the stored password hash (bcrypt) and `is_code` the test for six digits.
use be_weavecarbon.Common.{
  ℕ, ◌+◌, ◌-◌, ◌/◌, String, Bool, true, false, not, ◌&&◌, Option, none, some, List, [], ◌∷◌, str_eq,
  if◌then◌else◌, is_some, any, select_one,
}
use be_weavecarbon.Mfa.Factors.{
  Factor, RecoveryHash, Store, Answer, blocked, active, latest, consume, enroll, confirm,
  switch_off, is_pending,
}

module _ (unseal : Option String → ℕ → String) (code_at : String → ℕ → String)
    (digest : String → String → String) (is_code : String → Bool)
    (is_password : ℕ → String → Bool) where
  -- `verifyTotp`: the code of the period before, of this one or of the next.
  abbrev pub verify_totp : ℕ → String → String → Bool
  verify_totp now secret code =
      let counter = now / 30000 in
      is_code code
      && any (λ c. str_eq (code_at secret c) code) ((counter - 1) ∷ counter ∷ (counter + 1) ∷ [])

  -- The loop over the recovery codes stops at the first with the digest of the code.
  abbrev pub matches : String → RecoveryHash → Bool
  matches code item = str_eq (digest code item.salt) item.hash

  unfoldable pub use_recovery : ℕ → Factor → String → Store → Store × Bool
  use_recovery user factor code store =
      elim (select_one (matches code) factor.recovery_code_hashes) [
        | none ↦ (store, false)
        | some item ↦ consume user factor.id item.hash store
      ]

  -- `verifyChallenge`
  unfoldable pub verify_challenge : ℕ → ℕ → String → Store → Store × Bool
  verify_challenge now user code store = elim (active user store.factors) [
    | none ↦ (store, false)
    | some factor ↦
        let recovery = use_recovery user factor code store in
        if verify_totp now (unseal factor.secret user) code then (store, true) else recovery
  ]

  -- `beginEnrollment`: `sealed` is the new secret. A challenge that fails rolls the store back.
  unfoldable pub begin_enrollment : ℕ → ℕ → ℕ → String → String → String → Store → Store × Answer
  begin_enrollment now fresh user password current_code sealed store =
      let challenge = verify_challenge now user current_code store in
      if not (is_password user password)
      then (store, blocked "MFA_PASSWORD_INVALID")
      else if not (is_some (active user store.factors))
      then enroll fresh user sealed store
      else if not challenge.1
      then (store, blocked "MFA_CURRENT_CODE_INVALID")
      else enroll fresh user sealed challenge.0

  -- `confirmEnrollment`: `hashes` are those of the ten new recovery codes.
  unfoldable pub confirm_enrollment :
      ℕ → ℕ → ℕ → String → List RecoveryHash → Store → Store × Answer
  confirm_enrollment now fresh user code hashes store = elim (latest user store.factors) [
    | none ↦ (store, blocked "MFA_ENROLLMENT_NOT_PENDING")
    | some offer ↦
        if not (is_pending offer.status)
        then (store, blocked "MFA_ENROLLMENT_NOT_PENDING")
        else if not (verify_totp now (unseal offer.secret user) code)
        then (store, blocked "MFA_CODE_INVALID")
        else confirm fresh user hashes offer store
  ]

  -- `disable`; the reason is trimmed.
  unfoldable pub disable : ℕ → ℕ → ℕ → String → String → String → Store → Store × Answer
  disable now fresh user password code reason store =
      let challenge = verify_challenge now user code store in
      if str_eq reason ""
      then (store, blocked "MFA_DISABLE_REASON_REQUIRED")
      else if not (is_password user password)
      then (store, blocked "MFA_PASSWORD_INVALID")
      else if not challenge.1
      then (store, blocked "MFA_CODE_INVALID")
      else switch_off fresh user reason challenge.0
