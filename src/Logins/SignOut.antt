-- ===== src/Logins/SignOut.antt =====
-- Signing out on all devices (`signOut` of src/modules/auth/authSessionService.js) ends the sessions
-- of a user.
use mathlib.Core.List.{Memᴰ}
use be_weavecarbon.Common.{
  ℕ, ◌+◌, ◌*◌, ◌≤◌, String, true, false, ◌≡◌, ◌≢◌, refl, sym, ap, subst, ◌∙◌, Option, some, arith,
  inl, inr, mem-update_where_hit,
}
use be_weavecarbon.Sessions.Tokens.{
  Token, Tokens, Session, Metadata, Answer, revoke_all_for_user, revoke_row, is_live_user,
}
use be_weavecarbon.Sessions.Invariant.{IsIntact, Step, Reach, Reach-IsIntact}
use be_weavecarbon.Sessions.Revocation.{revoked-never_rotates}
use be_weavecarbon.Logins.Flow.{
  Crypto, State, Grant, authenticated, issue_refresh_session, claimed_user, revoke_everywhere,
  sign_out,
}
use be_weavecarbon.Logins.Renewed.{issue_refresh_session-IsRefreshed, next_token}

module _ (k : Crypto) (signed_out : ℕ) (refresh access : Option String) (s : State) where
  abbrev out : Tokens
  out = (sign_out k signed_out true refresh access s).0.tokens

  -- The table that it leaves is that of the statement for the user of the tokens.
  out-revoked :
      (user : ℕ)
      → claimed_user k signed_out access refresh ≡ some user
      → out ≡ (revoke_all_for_user signed_out user s.tokens).0
  unfolding sign_out
  out-revoked user e = ap (λ o. (revoke_everywhere k signed_out refresh s o).0.tokens) e

  out-IsIntact :
      (user : ℕ)
      → claimed_user k signed_out access refresh ≡ some user
      → IsIntact s.tokens
      → IsIntact out
  out-IsIntact user e h = subst IsIntact (sym (out-revoked user e)) (
      Reach-IsIntact k.hash_token k.decode_expiry h
        (Reach.next Reach.here (Step.revoked_all signed_out user)))

  out-mem :
      (user : ℕ) (t : Token)
      → claimed_user k signed_out access refresh ≡ some user
      → Memᴰ t s.tokens
      → t.user_id ≡ user
      → t.is_revoked ≡ false
      → Memᴰ (revoke_row signed_out t) out
  unfolding revoke_all_for_user
  out-mem user t e m own live =
      subst (Memᴰ (revoke_row signed_out t)) (sym (out-revoked user e))
        (mem-update_where_hit (is_live_user user) (revoke_row signed_out) s.tokens (ground arith) m)

  -- Once the grace period after signing out on all devices is over, no refresh token that was live
  -- then opens a session by rotation again: whatever logins, refreshes and logouts come between.
  pub sign_out-ends_sessions :
      (now grace fresh user : ℕ) (current : String) (meta : Metadata) (t : Token) (later : State)
      (g : Grant)
      → claimed_user k signed_out access refresh ≡ some user
      → IsIntact s.tokens
      → Memᴰ t s.tokens
      → t.user_id ≡ user
      → t.token_hash ≡ k.hash_token current
      → t.is_revoked ≡ false
      → signed_out + grace * 1000 ≤ now
      → Reach k.hash_token k.decode_expiry out later.tokens
      → (issue_refresh_session k now grace fresh current true meta later).1 ≢ authenticated g
  sign_out-ends_sessions now grace fresh user current meta t later g c h m own hash live late r e =
      let shown = issue_refresh_session-IsRefreshed k now grace fresh current true meta later g e in
      let refused =
        revoked-never_rotates k.hash_token k.decode_expiry now grace fresh signed_out current
          (next_token k now grace fresh current true meta later g shown.claims) meta
          (revoke_row signed_out t) (out-IsIntact user c h) (out-mem user t c m own live) hash refl
          refl late r in
      elim shown.backed [
        | inl (on, (x, q, u)) ↦
            absurd (cc (sym q ∙ ap (λ (p : Tokens × Answer (Option Session)). p.1) refused))
        | inr (off, b) ↦ absurd (cc off)
      ]
