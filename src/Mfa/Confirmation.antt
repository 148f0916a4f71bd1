-- ===== src/Mfa/Confirmation.antt =====
-- What confirmation and deactivation make of the active factor of a user
-- (src/modules/auth/mfaService.js).
use be_weavecarbon.Common.{
  ℕ, String, Bool, true, false, ◌≡◌, refl, sym, ap, subst, Option, none, some, List, arith, not,
  if_intro, option_intro, str_eq,
}
use be_weavecarbon.Mfa.Factors.{
  Factor, Store, RecoveryHash, Answer, created, latest, with_factor, confirm, active, is_pending,
  confirmed_row, disabled_row, disabled,
}
use be_weavecarbon.Mfa.Challenges.{verify_challenge, confirm_enrollment, disable, verify_totp}
use be_weavecarbon.Mfa.History.{IsOrdered}
use be_weavecarbon.Mfa.Operations.{created_inj, with_factor-active, challenge-factors}

module _ (unseal : Option String → ℕ → String) (code_at : String → ℕ → String)
    (digest : String → String → String) (is_code : String → Bool)
    (is_password : ℕ → String → Bool) where
  abbrev challenge : ℕ → ℕ → String → Store → Store × Bool
  challenge = verify_challenge unseal code_at digest is_code is_password

  -- The new row `f` switches on the factor that was pending, whose code was given.
  pub record IsConfirmed (now user : ℕ) (code : String) (s : Store) (f : Factor) (last : Store)
      : Type 0 where
    pub offer : Factor
    pub was_latest : latest user s.factors ≡ some offer
    pub was_pending : is_pending offer.status ≡ true
    pub was_shown :
        verify_totp unseal code_at digest is_code is_password now (unseal offer.secret user) code
        ≡ true
    pub same_secret : f.secret ≡ offer.secret
    pub active_now : active user last.factors ≡ some f

  confirm-IsConfirmed :
      (now fresh user : ℕ) (code : String) (hashes : List RecoveryHash) (s : Store)
      (f offer : Factor)
      → IsOrdered s.factors
      → latest user s.factors ≡ some offer
      → is_pending offer.status ≡ true
      → verify_totp unseal code_at digest is_code is_password now (unseal offer.secret user) code
        ≡ true
      → (confirm fresh user hashes offer s).1 ≡ created f
      → IsConfirmed now user code s f (confirm fresh user hashes offer s).0
  confirm-IsConfirmed now fresh user code hashes s f offer o l p v e =
      let row : Factor = confirmed_row fresh user hashes offer s in
      subst (λ g. IsConfirmed now user code s g (with_factor row s).0) (created_inj e)
        (record {
          offer = offer;
          was_latest = l;
          was_pending = p;
          was_shown = v;
          same_secret = refl;
          active_now = with_factor-active row s o refl;
        })

  -- A confirmation that succeeds makes the secret that the last revision of the user offers the
  -- active one, and succeeds only on a code of that secret.
  pub confirm_enrollment-IsConfirmed :
      (now fresh user : ℕ) (code : String) (hashes : List RecoveryHash) (s : Store) (f : Factor)
      → IsOrdered s.factors
      → (confirm_enrollment unseal code_at digest is_code is_password now fresh user code hashes
          s).1
        ≡ created f
      → IsConfirmed now user code s f
          (confirm_enrollment unseal code_at digest is_code is_password now fresh user code hashes
            s).0
  unfolding confirm_enrollment
  confirm_enrollment-IsConfirmed now fresh user code hashes s f o =
      option_intro Made (latest user s.factors) (λ _ e. absurd (cc))
        (λ offer l.
          if_intro Made (not (is_pending offer.status)) (λ _ e. absurd (cc))
            (λ p.
              if_intro Made
                (not (
                  verify_totp unseal code_at digest is_code is_password now
                    (unseal offer.secret user) code))
                (λ _ e. absurd (cc))
                (λ v.
                  confirm-IsConfirmed now fresh user code hashes s f offer o l (ground arith)
                    (not_false _ v))))
    where
      Made : Store × Answer → Type 0
      Made r = r.1 ≡ created f → IsConfirmed now user code s f r.0

      not_false : (b : Bool) → not b ≡ false → b ≡ true
      not_false b h = ground arith

  -- A deactivation that succeeds leaves the user without an active factor.
  pub disable-inactive :
      (now fresh user : ℕ) (password code reason : String) (s : Store) (f : Factor)
      → IsOrdered s.factors
      → (disable unseal code_at digest is_code is_password now fresh user password code reason s).1
        ≡ created f
      → (f.status ≡ disabled)
        × (active user
              (disable unseal code_at digest is_code is_password now fresh user password code reason
                s).0.factors
            ≡ none)
        × ((challenge now user code s).1 ≡ true)
  unfolding disable
  disable-inactive now fresh user password code reason s f o =
      if_intro Made (str_eq reason "") (λ _ e. absurd (cc))
        (λ _.
          if_intro Made (not (is_password user password)) (λ _ e. absurd (cc))
            (λ _.
              if_intro Made (not (challenge now user code s).1) (λ _ e. absurd (cc))
                (λ v e. (
                  ap (λ (x : Factor). x.status) (sym (created_inj e)),
                  with_factor-active (disabled_row fresh user reason (challenge now user code s).0)
                      (challenge now user code s).0
                      (subst IsOrdered
                        (sym (
                          challenge-factors unseal code_at digest is_code is_password now user code
                            s))
                        o)
                      refl,
                  ground arith,
                ))))
    where
      Made : Store × Answer → Type 0
      Made r =
          r.1 ≡ created f
          → (f.status ≡ disabled)
            × (active user r.0.factors ≡ none)
            × ((challenge now user code s).1 ≡ true)
