-- ===== src/Mfa/Operations.antt =====
-- What enrolment, confirmation and deactivation make of the active factor of a user
-- (src/modules/auth/mfaService.js).
use be_weavecarbon.Common.{
  ℕ, String, Bool, true, false, ◌≡◌, refl, sym, ap, subst, ◌∙◌, Option, none, some, ◌∷◌, not,
  if◌then◌else◌, is_some, if_intro, option_intro, select_one, ==_iff,
}
use be_weavecarbon.Mfa.Factors.{
  Factor, Store, Answer, blocked, created, of_user, latest, next_revision, with_factor, enroll,
  active, is_enabled, is_disabled, consume, offered_row, is_consumption, pending,
}
use be_weavecarbon.Mfa.Challenges.{
  verify_challenge, begin_enrollment, verify_totp, matches, use_recovery,
}
use be_weavecarbon.Mfa.History.{IsOrdered, with_factor-Follows}
use be_weavecarbon.Mfa.Active.{switched_on, is_off, active-switched_on, latest-first}

pub created_inj : {f g : Factor} → created f ≡ created g → f ≡ g
created_inj {f} e = ap (λ a. elim a [ blocked _ ↦ f | created h ↦ h ]) e

-- What a new row of a user makes of the active factor.
pub with_factor-active :
    (f : Factor) (s : Store)
    → IsOrdered s.factors
    → f.revision ≡ next_revision f.user_id s.factors
    → active f.user_id (with_factor f s).0.factors ≡ (
        if is_disabled f.status
        then none
        else if is_enabled f.status
        then some f
        else select_one (switched_on f.user_id) s.factors)
with_factor-active f s o e =
    active-switched_on f.user_id (f ∷ s.factors) ((with_factor-Follows f s e).ordered o)
    ∙ rw ((==_iff f.user_id f.user_id).1 refl) refl

with_factor-latest :
    (f : Factor) (s : Store)
    → IsOrdered s.factors
    → f.revision ≡ next_revision f.user_id s.factors
    → latest f.user_id (with_factor f s).0.factors ≡ some f
with_factor-latest f s o e =
    latest-first f.user_id (f ∷ s.factors) ((with_factor-Follows f s e).ordered o)
    ∙ rw ((==_iff f.user_id f.user_id).1 refl) refl

-- The new row `f` of `user` offers a factor; the active one is the last that was switched on.
pub record IsOffered (user : ℕ) (s : Store) (f : Factor) (last : Store) : Type 0 where
  pub offered : f.status ≡ pending
  pub newest : latest user last.factors ≡ some f
  pub active_now : active user last.factors ≡ select_one (switched_on user) s.factors

enroll-IsOffered :
    (fresh user : ℕ) (sealed : String) (s t : Store) (f : Factor)
    → t.factors ≡ s.factors
    → IsOrdered t.factors
    → (enroll fresh user sealed t).1 ≡ created f
    → IsOffered user s f (enroll fresh user sealed t).0
enroll-IsOffered fresh user sealed s t f same o e =
    let row : Factor = offered_row fresh user sealed t in
    subst (λ g. IsOffered user s g (with_factor row t).0) (created_inj e)
      (record {
        offered = refl;
        newest = with_factor-latest row t o refl;
        active_now =
            with_factor-active row t o refl ∙ ap (λ rows. select_one (switched_on user) rows) same;
      })

module _ (unseal : Option String → ℕ → String) (code_at : String → ℕ → String)
    (digest : String → String → String) (is_code : String → Bool)
    (is_password : ℕ → String → Bool) where
  abbrev challenge : ℕ → ℕ → String → Store → Store × Bool
  challenge = verify_challenge unseal code_at digest is_code is_password

  -- A challenge changes no factor.
  pub challenge-factors :
      (now user : ℕ) (code : String) (s : Store) → (challenge now user code s).0.factors ≡ s.factors
  unfolding verify_challenge use_recovery consume
  challenge-factors now user code s =
      option_intro Same (active user s.factors) (λ _. refl)
        (λ f _.
          if_intro Same
            (verify_totp unseal code_at digest is_code is_password now (unseal f.secret user) code)
            (λ _. refl)
            (λ _.
              option_intro Same
                (select_one (matches unseal code_at digest is_code is_password code)
                  f.recovery_code_hashes)
                (λ _. refl)
                (λ item _.
                  if_intro Same
                    (is_some (select_one (is_consumption f.id item.hash) s.consumptions))
                    (λ _. refl) (λ _. refl))))
    where
      Same : Store × Bool → Type 0
      Same r = r.0.factors ≡ s.factors

  -- An enrolment that begins offers a new factor as the last revision of the user, with which the
  -- factor that was switched on last is active, where revisions are ordered.
  pub begin_enrollment-IsOffered :
      (now fresh user : ℕ) (password code sealed : String) (s : Store) (f : Factor)
      → IsOrdered s.factors
      → (begin_enrollment unseal code_at digest is_code is_password now fresh user password code
          sealed s).1
        ≡ created f
      → IsOffered user s f
          (begin_enrollment unseal code_at digest is_code is_password now fresh user password code
            sealed s).0
  unfolding begin_enrollment
  begin_enrollment-IsOffered now fresh user password code sealed s f o =
      if_intro Made (not (is_password user password)) (λ _ e. absurd (cc))
        (λ _.
          if_intro Made (not (is_some (active user s.factors)))
            (λ _. enroll-IsOffered fresh user sealed s s f refl o)
            (λ _.
              if_intro Made (not (challenge now user code s).1) (λ _ e. absurd (cc))
                (λ _.
                  enroll-IsOffered fresh user sealed s (challenge now user code s).0 f same
                    (subst IsOrdered (sym same) o))))
    where
      Made : Store × Answer → Type 0
      Made r = r.1 ≡ created f → IsOffered user s f r.0

      same : (challenge now user code s).0.factors ≡ s.factors
      same = challenge-factors now user code s

  -- A rotation leaves the active factor active until it is confirmed: an enrolment that begins where
  -- the second factor is not switched off does not change which factor is active.
  pub begin_enrollment-keeps_active :
      (now fresh user : ℕ) (password code sealed : String) (s : Store) (f : Factor)
      → IsOrdered s.factors
      → is_off (select_one (of_user user) s.factors) ≡ false
      → (begin_enrollment unseal code_at digest is_code is_password now fresh user password code
          sealed s).1
        ≡ created f
      → active user
          (begin_enrollment unseal code_at digest is_code is_password now fresh user password code
            sealed s).0.factors
        ≡ active user s.factors
  begin_enrollment-keeps_active now fresh user password code sealed s f o on e =
      (begin_enrollment-IsOffered now fresh user password code sealed s f o e).active_now
      ∙ sym (active-switched_on user s.factors o ∙ rw on refl)

  -- Where the second factor is switched off, beginning an enrolment makes the last factor that was
  -- ever switched on active again, before the new one is confirmed.
  pub begin_enrollment-revives :
      (now fresh user : ℕ) (password code sealed : String) (s : Store) (f old : Factor)
      → IsOrdered s.factors
      → is_off (select_one (of_user user) s.factors) ≡ true
      → select_one (switched_on user) s.factors ≡ some old
      → (begin_enrollment unseal code_at digest is_code is_password now fresh user password code
          sealed s).1
        ≡ created f
      → (active user s.factors ≡ none)
        × (active user
              (begin_enrollment unseal code_at digest is_code is_password now fresh user password
                code sealed s).0.factors
            ≡ some old)
  begin_enrollment-revives now fresh user password code sealed s f old o off on e = (
    active-switched_on user s.factors o ∙ rw off refl,
    (begin_enrollment-IsOffered now fresh user password code sealed s f o e).active_now ∙ on,
  )
