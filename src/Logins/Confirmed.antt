-- ===== src/Logins/Confirmed.antt =====
-- What a verified address (`verifyEmail` of src/modules/auth/verificationService.js) has been checked
-- for, and what it changes.
use mathlib.Core.List.{Memᴰ}
use be_weavecarbon.Common.{
  String, Bool, true, ◌≡◌, refl, ap, subst, some, arith, not, ◌||◌, ==_iff, if_intro, option_intro,
  select_one, delete_where, mem-select_one, mem-update_where_hit, delete_where-update_where,
}
use be_weavecarbon.Logins.Context.{Login}
use be_weavecarbon.Logins.Flow.{has_address, has_number}
use be_weavecarbon.Logins.Verification.{
  EmailClaims, Verifier, Accounts, Answered, Verification, answered, rejected, is_empty,
  with_confirmed, mark_email_verified, requested, is_email_token, verify_user, verify_email,
}

verification_inj : {a b : Verification} → answered a ≡ answered b → a ≡ b
verification_inj {a} e = ap (λ o. elim o [ answered x ↦ x | rejected _ _ ↦ a ]) e

module _ (k : Verifier) (token address : String) (normalize again_fails : Bool) (s : Accounts) where
  -- The token is one for the address, the user shown has it, and only that user has changed.
  pub record IsConfirmed (v : Verification) (after : Accounts) : Type 0 where
    pub claims : EmailClaims
    pub verified : k.verify_email_token token ≡ some claims
    pub same_address : is_email_token k normalize address claims ≡ true
    pub found : select_one (has_address (requested k normalize address)) s.logins ≡ some v.user
    pub known : v.already_verified ≡ v.user.email_verified
    pub confirms : Memᴰ (with_confirmed v.user) after.logins
    pub others :
        delete_where (has_number v.user.user.id) after.logins
        ≡ delete_where (has_number v.user.user.id) s.logins
    pub team : after.team ≡ s.team

  abbrev Confirms : Verification → Accounts × Answered Verification → Type 0
  Confirms v r = r.1 ≡ answered v → IsConfirmed v r.0

  verify_user-Confirms :
      (v : Verification) (c : EmailClaims) (l : Login)
      → k.verify_email_token token ≡ some c
      → is_email_token k normalize address c ≡ true
      → select_one (has_address (requested k normalize address)) s.logins ≡ some l
      → Confirms v (verify_user k again_fails l s)
  unfolding mark_email_verified
  verify_user-Confirms v c l t a f =
      let mem = mem-select_one (has_address (requested k normalize address)) s.logins l f in
      if_intro (Confirms v) l.email_verified
        (λ done.
          if_intro (Confirms v) again_fails (λ _ e. absurd (cc))
            (λ _ e.
              subst (λ (w : Verification). IsConfirmed w s) (verification_inj e)
                (record {
                  claims = c;
                  verified = t;
                  same_address = a;
                  found = f;
                  known = rw done refl;
                  confirms =
                      subst (λ x. Memᴰ x s.logins) (ap (λ b. record l { email_verified = b }) done)
                        mem;
                  others = refl;
                  team = refl;
                })))
        (λ new e.
          subst (λ (w : Verification). IsConfirmed w (mark_email_verified l.user.id s))
            (verification_inj e)
            (record {
              claims = c;
              verified = t;
              same_address = a;
              found = f;
              known = rw new refl;
              confirms =
                  mem-update_where_hit (has_number l.user.id) with_confirmed s.logins
                    ((==_iff l.user.id l.user.id).1 refl) mem;
              others =
                  delete_where-update_where (has_number l.user.id) (has_number l.user.id)
                    with_confirmed s.logins (λ r h. h) (λ r. refl);
              team = refl;
            }))

  -- An address that is answered as verified has a token signed for it and a user, who is in the table
  -- with a confirmed address afterwards; no other user and no member is different, and the answer
  -- says whether the address was confirmed before.
  pub verify_email-IsConfirmed :
      (v : Verification)
      → (verify_email k token address normalize again_fails s).1 ≡ answered v
      → IsConfirmed v (verify_email k token address normalize again_fails s).0
  unfolding verify_email
  verify_email-IsConfirmed v =
      if_intro (Confirms v) (is_empty token || is_empty address) (λ _ e. absurd (cc))
        (λ _.
          option_intro (Confirms v) (k.verify_email_token token) (λ _ e. absurd (cc))
            (λ c t.
              if_intro (Confirms v) (not (is_email_token k normalize address c))
                (λ _ e. absurd (cc))
                (λ a.
                  option_intro (Confirms v)
                    (select_one (has_address (requested k normalize address)) s.logins)
                    (λ _ e. absurd (cc))
                    (λ l f. verify_user-Confirms v c l t (ground (arith, a)) f))))
