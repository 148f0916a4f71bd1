-- ===== src/Logins/Granted.antt =====
-- What a session that src/modules/auth/authSessionService.js grants has been checked for.
use mathlib.Core.List.{Memᴰ}
use be_weavecarbon.Common.{
  ℕ, String, Bool, true, false, ◌≡◌, ap, Option, some, not, ◌&&◌, select_one, if◌then◌else◌,
}
use be_weavecarbon.Mfa.Factors.{get_challenge_state}
use be_weavecarbon.Sessions.Tokens.{
  Token, Tokens, Session, Metadata, Answer, ok, store, stored, has_hash,
}
use be_weavecarbon.Logins.Flow.{
  Crypto, State, Grant, Result, authenticated, refused, thrown, has_address, given, challenge,
}

pub authenticated_inj : {g h : Grant} → authenticated g ≡ authenticated h → g ≡ h
authenticated_inj {g} e = ap (λ r. elim r [ authenticated x ↦ x | refused _ _ ↦ g | thrown ↦ g ]) e

-- The answer of `store` is a session.
abbrev pub IsStored : Tokens × Answer Session → Type 0
IsStored r = (x : Session) × (r.1 ≡ ok x)

-- A row of the table for the token of a user that has not been revoked.
pub record IsHeld (hash : String) (user : ℕ) (rows : Tokens) : Type 0 where
  pub row : Token
  pub listed : Memᴰ row rows
  pub hashed : row.token_hash ≡ hash
  pub own : row.user_id ≡ user
  pub live : row.is_revoked ≡ false

module _ (k : Crypto) (now : ℕ) where
  -- A password that fits, an address that is confirmed, a second factor where one is active; and
  -- afterwards a refresh token in the table, a second factor as the challenge left it, and the rest as
  -- it was.
  pub record IsSignedIn (fresh : ℕ) (email password : String) (totp : Option String)
      (meta : Metadata) (s : State) (g : Grant) (after : State) : Type 0 where
    pub hash : String
    pub token : String
    pub found : select_one (has_address email) s.logins ≡ some g.login
    pub has_hash : g.login.password_hash ≡ some hash
    pub fits : k.verify_password password hash ≡ true
    pub confirmed : (not g.login.email_verified && not g.login.is_demo_user) ≡ false
    pub verified : g.mfa_verified ≡ (get_challenge_state g.login.user.id s.factors).enabled
    pub challenged :
        g.mfa_verified ≡ true → (challenge k now g.login.user.id (given totp) s.factors).1 ≡ true
    pub has_token : g.refresh_token ≡ some token
    pub stored :
        after.tokens
        ≡ (store k.hash_token k.decode_expiry now fresh token g.login.user.id meta s.tokens).0
    pub held : IsHeld (k.hash_token token) g.login.user.id after.tokens
    pub spent : after.factors ≡ (
        if g.mfa_verified
        then (challenge k now g.login.user.id (given totp) s.factors).0
        else s.factors)
    pub same_logins : after.logins ≡ s.logins
    pub same_team : after.team ≡ s.team

  module _ (fresh : ℕ) (email password : String) (totp : Option String) (remember : Bool)
      (meta : Metadata) (s : State) (g : Grant) where
    abbrev Shown : State × Result → Type 0
    Shown r = r.1 ≡ authenticated g → IsSignedIn fresh email password totp meta s g r.0
