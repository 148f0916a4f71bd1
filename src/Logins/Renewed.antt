-- ===== src/Logins/Renewed.antt =====
-- What a session that `issueRefreshSession` of src/modules/auth/authSessionService.js grants again
-- has been checked for.
use be_weavecarbon.Common.{
  ℕ, String, Bool, true, false, ◌≡◌, ◌⊎◌, refl, sym, ap, ◌∙◌, Option, none, some, arith, not, ◌&&◌,
  inl, inr, if_intro, option_intro, select_one,
}
use be_weavecarbon.Mfa.Factors.{get_challenge_state}
use be_weavecarbon.Sessions.Tokens.{
  Token, Tokens, Session, Metadata, Answer, ok, expiry_unknown, duplicate_token, rotate,
  find_active_by_hash,
}
use be_weavecarbon.Logins.Flow.{
  RefreshClaims, Crypto, State, Grant, Result, authenticated, has_number, renewed, after_rotation,
  refresh_claims, issue_refresh_session,
}
use be_weavecarbon.Logins.Granted.{authenticated_inj}

module _ (k : Crypto) (now grace fresh : ℕ) (current : String) (rotating : Bool) (meta : Metadata)
    (s : State) (g : Grant) where
  abbrev pub next_token : RefreshClaims → String
  next_token c = k.generate_refresh_token c.sub c.remember_me c.mfa_verified

  abbrev pub rotation : RefreshClaims → Tokens × Answer (Option Session)
  rotation c =
      rotate k.hash_token k.decode_expiry now grace fresh current (next_token c) meta s.tokens

  -- The refresh token of the request rotates or is active, for a user.
  abbrev pub IsBacked : RefreshClaims → ℕ → Type 0
  IsBacked c user =
      ((rotating ≡ true) × ((x : Session) × ((rotation c).1 ≡ ok (some x)) × (x.user_id ≡ user)))
      ⊎ ((rotating ≡ false)
          × ((t : Token) × (find_active_by_hash now (k.hash_token current) s.tokens ≡ some t)
              × (t.user_id ≡ user)))

  pub record IsRefreshed : Type 0 where
    pub claims : RefreshClaims
    pub user : ℕ
    pub verified : k.verify_refresh_token current ≡ some claims
    pub is_refresh : claims.is_refresh ≡ true
    pub factor :
        ((get_challenge_state claims.sub s.factors).enabled && not claims.mfa_verified) ≡ false
    pub same_factor : g.mfa_verified ≡ claims.mfa_verified
    pub backed : IsBacked claims user
    pub found : select_one (has_number user) s.logins ≡ some g.login

  abbrev Shown : State × Result → Type 0
  Shown r = r.1 ≡ authenticated g → IsRefreshed

  renewed-IsRefreshed :
      (c : RefreshClaims) (flag : Bool) (token : String) (user : ℕ) (after : State)
      → k.verify_refresh_token current ≡ some c
      → c.is_refresh ≡ true
      → ((get_challenge_state c.sub s.factors).enabled && not c.mfa_verified) ≡ false
      → IsBacked c user
      → after.logins ≡ s.logins
      → Shown (renewed k now flag c token user after)
  renewed-IsRefreshed c flag token user after v i f b same =
      option_intro Shown (select_one (has_number user) after.logins) (λ _ e. absurd (cc))
        (λ l found e.
          let made = authenticated_inj e in
          record {
            claims = c;
            user = user;
            verified = v;
            is_refresh = i;
            factor = f;
            same_factor = ap (λ (h : Grant). h.mfa_verified) (sym made);
            backed = b;
            found =
                ap (λ rows. select_one (has_number user) rows) (sym same)
                ∙ found
                ∙ ap (λ (h : Grant). some h.login) made;
          })

  rotation-IsRefreshed :
      (c : RefreshClaims) (r : Tokens × Answer (Option Session))
      → k.verify_refresh_token current ≡ some c
      → c.is_refresh ≡ true
      → ((get_challenge_state c.sub s.factors).enabled && not c.mfa_verified) ≡ false
      → rotating ≡ true
      → (rotation c).1 ≡ r.1
      → Shown (after_rotation k now c (next_token c) s r)
  rotation-IsRefreshed c (tokens, ok none) v i f on e = λ e. absurd (cc)
  rotation-IsRefreshed c (tokens, ok (some x)) v i f on e =
      renewed-IsRefreshed c true (next_token c) x.user_id (record s { tokens = tokens }) v i f
        (inl (on, (x, e, refl))) refl
  rotation-IsRefreshed c (tokens, expiry_unknown) v i f on e = λ e. absurd (cc)
  rotation-IsRefreshed c (tokens, duplicate_token) v i f on e = λ e. absurd (cc)

  claims-IsRefreshed :
      (c : RefreshClaims)
      → k.verify_refresh_token current ≡ some c
      → Shown (refresh_claims k now grace fresh current rotating meta s c)
  claims-IsRefreshed c v =
      if_intro Shown (not c.is_refresh) (λ _ e. absurd (cc))
        (λ i.
          if_intro Shown ((get_challenge_state c.sub s.factors).enabled && not c.mfa_verified)
            (λ _ e. absurd (cc))
            (λ f.
              if_intro Shown rotating
                (λ on. rotation-IsRefreshed c (rotation c) v (holds _ i) f on refl)
                (λ off.
                  option_intro Shown (find_active_by_hash now (k.hash_token current) s.tokens)
                    (λ _ e. absurd (cc))
                    (λ t a.
                      renewed-IsRefreshed c false current t.user_id s v (holds _ i) f
                        (inr (off, (t, a, refl))) refl))))
    where
      holds : (b : Bool) → not b ≡ false → b ≡ true
      holds b h = ground arith

  -- A session is granted again only on a verified refresh token, with the second factor in it where
  -- one is active, to the user for whom the token rotates or is active; the second factor of the new
  -- session is that of the old.
  pub issue_refresh_session-IsRefreshed :
      (issue_refresh_session k now grace fresh current rotating meta s).1 ≡ authenticated g
      → IsRefreshed
  unfolding issue_refresh_session
  issue_refresh_session-IsRefreshed =
      option_intro Shown (k.verify_refresh_token current) (λ _ e. absurd (cc))
        (λ c v. claims-IsRefreshed c v)
