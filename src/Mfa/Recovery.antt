-- ===== src/Mfa/Recovery.antt =====
-- A recovery code counts once (`verifyChallenge` of src/modules/auth/mfaService.js).
use mathlib.Core.List.{Memᴰ}
use be_weavecarbon.Common.{
  ℕ, String, Bool, true, false, ◌≡◌, refl, sym, subst, Option, some, List, arith, All-mem, is_some,
  inl, inr, Bool-cases, Option-cases, select_one, select_one-All, ==_iff, str_eq_iff,
}
use be_weavecarbon.Mfa.Factors.{Factor, Store, Consumption, active, consume, is_consumption}
use be_weavecarbon.Mfa.Challenges.{verify_challenge, verify_totp, matches, use_recovery}
use be_weavecarbon.Mfa.History.{Reach, Reach-Follows}

abbrev use_of : ℕ → ℕ → String → Consumption
use_of user factor hash = record {
  user_id = user;
  factor_revision_id = factor;
  recovery_hash = hash;
}

consume-mem :
    (user factor : ℕ) (hash : String) (s : Store)
    → (consume user factor hash s).1 ≡ true
    → Memᴰ (use_of user factor hash) (consume user factor hash s).0.consumptions
unfolding consume
consume-mem user factor hash s e =
    elim (Bool-cases (is_some (select_one (is_consumption factor hash) s.consumptions))) [
      | inl t ↦ absurd (ground arith)
      | inr t ↦ rw (t, consume) (Memᴰ.head refl)
    ]

mem-is_some :
    (test : Consumption → Bool) (rows : List Consumption) (c : Consumption)
    → Memᴰ c rows
    → test c ≡ true
    → is_some (select_one test rows) ≡ true
mem-is_some test rows c m t = elim (Option-cases (select_one test rows)) [
  | inr (d, e) ↦ rw e refl
  | inl e ↦ absurd (cc (All-mem (λ x. test x ≡ false) rows m (select_one-All test rows e)))
]

-- What has been used cannot be used again.
consume-again :
    (user factor : ℕ) (hash : String) (s : Store)
    → Memᴰ (use_of user factor hash) s.consumptions
    → consume user factor hash s ≡ (s, false)
unfolding consume
consume-again user factor hash s m =
    rw
      (
        mem-is_some (is_consumption factor hash) s.consumptions (use_of user factor hash) m
            (rw ((==_iff factor factor).1 refl) ((str_eq_iff hash hash).1 refl)),
        consume,
      )
      refl

module _ (unseal : Option String → ℕ → String) (code_at : String → ℕ → String)
    (digest : String → String → String) (is_code : String → Bool)
    (is_password : ℕ → String → Bool) where
  abbrev challenge : ℕ → ℕ → String → Store → Store × Bool
  challenge = verify_challenge unseal code_at digest is_code is_password

  abbrev is_totp : ℕ → ℕ → Factor → String → Bool
  is_totp now user factor code =
      verify_totp unseal code_at digest is_code is_password now (unseal factor.secret user) code

  -- With a factor active, what is no code of it is tried as a recovery code.
  challenge-recovery :
      (now user : ℕ) (factor : Factor) (code : String) (s : Store)
      → active user s.factors ≡ some factor
      → is_totp now user factor code ≡ false
      → challenge now user code s
        ≡ use_recovery unseal code_at digest is_code is_password user factor code s
  unfolding verify_challenge
  challenge-recovery now user factor code s a v = rw (a, v, verify_challenge) refl

  -- A recovery code that has passed a challenge passes no other of the same factor, after any history
  -- of operations, unless it is also a code of the authenticator at that time.
  pub recovery-used_once :
      (now later user : ℕ) (factor : Factor) (code : String) (s t : Store)
      → active user s.factors ≡ some factor
      → is_totp now user factor code ≡ false
      → (challenge now user code s).1 ≡ true
      → Reach unseal code_at digest is_code is_password (challenge now user code s).0 t
      → active user t.factors ≡ some factor
      → is_totp later user factor code ≡ false
      → challenge later user code t ≡ (t, false)
  unfolding use_recovery
  recovery-used_once now later user factor code s t a v passed r a' v' =
      elim (Option-cases (
        select_one (matches unseal code_at digest is_code is_password code)
          factor.recovery_code_hashes)) [
            | inl e ↦
                let none_passed : challenge now user code s ≡ (s, false) =
                  rw (challenge-recovery now user factor code s a v, e, use_recovery) refl in
                absurd (cc (rw none_passed at passed))
            | inr (item, e) ↦
                let same : challenge now user code s ≡ consume user factor.id item.hash s =
                  rw (challenge-recovery now user factor code s a v, e, use_recovery) refl in
                let used : Memᴰ (use_of user factor.id item.hash) t.consumptions =
                  (Reach-Follows unseal code_at digest is_code is_password r).consumptions _ (
                    subst
                      (λ (x : Store × Bool).
                        Memᴰ (use_of user factor.id item.hash) x.0.consumptions)
                      (sym same) (consume-mem user factor.id item.hash s (rw same at passed))) in
                rw (challenge-recovery later user factor code t a' v', e, use_recovery)
                  (consume-again user factor.id item.hash t used)
          ]
