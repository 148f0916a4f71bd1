-- ===== src/Sessions/Rotation.antt =====
-- Rotation of refresh tokens (src/modules/auth/refreshSessionService.js): what a rotation that
-- succeeds leaves, and what it accepts.
use mathlib.Core.List.{Memᴰ}
use be_weavecarbon.Common.{
  ℕ, ◌+◌, ◌*◌, ◌<◌, String, true, false, ◌≡◌, ◌≢◌, refl, sym, ap, ◌∙◌, subst, Option, some, none,
  ◌∷◌, arith, All, All-map, All-update_where_to, IsUnique-mem, inl, inr, Bool-cases, str_eq,
  str_eq_iff, select_one, select_one-none, select_one-only, IsUnique-update_where, update_where,
  mem-update_where_hit, if_intro, mem-select_one, select_one_sound,
}
use be_weavecarbon.Sessions.Tokens.{
  Token, Tokens, NewToken, Session, Metadata, Answer, ok, has_hash, new_token, insert, is_live_hash,
  revoke_row, revoke_by_hash, has_id, revoke_by_id, revoke_current, is_rotatable, is_active,
  find_active_by_hash, find_by_hash, token_of, rotate, find_rotatable_by_hash,
}
use be_weavecarbon.Sessions.Invariant.{IsIntact, hash_of, rotate-cases}

module _ (hash_token : String → String) (decode_expiry : String → Option ℕ) (now grace : ℕ)
    (current renewed : String) (rows last : Tokens) (s : Session) where
  -- What a successful rotation leaves: a session of the old token's user, kept by a live new token,
  -- and no live old token.
  pub record IsRenewed : Type 0 where
    pub old : Token
    pub listed : Memᴰ old rows
    pub named : old.token_hash ≡ hash_token current
    pub valid : now < old.expires_at
    pub same_user : s.user_id ≡ old.user_id
    pub spent : find_active_by_hash now (hash_token current) last ≡ none
    pub new : Token
    pub kept : find_by_hash (hash_token renewed) last ≡ some new
    pub live :
        (new.is_revoked ≡ false) × (new.user_id ≡ s.user_id) × (new.expires_at ≡ s.expires_at)

insert-eq :
    (now fresh : ℕ) (n : NewToken) (rows : Tokens) {last : Tokens}
    → insert now fresh n rows ≡ some last
    → last ≡ new_token now fresh n ∷ rows
unfolding insert
insert-eq now fresh n rows e = ground arith

insert-absent :
    (now fresh : ℕ) (n : NewToken) (rows : Tokens)
    → select_one (has_hash n.token_hash) rows ≡ none
    → insert now fresh n rows ≡ some (new_token now fresh n ∷ rows)
unfolding insert
insert-absent now fresh n rows e = rw e

module _ (hash_token : String → String) (decode_expiry : String → Option ℕ) (now : ℕ)
    (current : String) where
  -- After its revocation no token of the table is active under the hash.
  revoke_current-spent :
      (session : Token) (rows : Tokens)
      → IsIntact rows
      → Memᴰ session rows
      → session.token_hash ≡ hash_token current
      → All
          (λ x. is_active now (hash_token current) x ≡ false)
          (revoke_current hash_token decode_expiry now session rows)
  unfolding revoke_by_id
  revoke_current-spent session rows h m e =
      let only = IsUnique-mem hash_of rows h.hashes m in
      if_intro (All (λ x. is_active now (hash_token current) x ≡ false)) session.is_revoked
        (λ r. All-map _ _ rows (λ x o. inactive x session e r o) only)
        (λ r.
          All-update_where_to (λ x. x.token_hash ≡ session.token_hash → x ≡ session) _
            (has_id session.id) (revoke_row now) rows (λ x t o. ground arith)
            (λ x t o. other x session e t o) only)
    where
      inactive :
          (x session : Token)
          → session.token_hash ≡ hash_token current
          → session.is_revoked ≡ true
          → (x.token_hash ≡ session.token_hash → x ≡ session)
          → is_active now (hash_token current) x ≡ false
      inactive x session e r o = elim (Bool-cases (str_eq x.token_hash (hash_token current))) [
        | inr d ↦ rw d
        | inl d ↦
            let w = o ((str_eq_iff _ _).0 d ∙ sym e) in
            ground (arith, ap (λ (y : Token). y.is_revoked) w)
      ]

      other :
          (x session : Token)
          → session.token_hash ≡ hash_token current
          → has_id session.id x ≡ false
          → (x.token_hash ≡ session.token_hash → x ≡ session)
          → is_active now (hash_token current) x ≡ false
      other x session e t o = elim (Bool-cases (str_eq x.token_hash (hash_token current))) [
        | inr d ↦ rw d
        | inl d ↦
            let w = o ((str_eq_iff _ _).0 d ∙ sym e) in
            absurd (ground (arith, ap (λ (y : Token). y.id) w))
      ]

is_rotatable-hash :
    (hash_token : String → String) (now grace : ℕ) (current : String) (t : Token)
    → is_rotatable now grace (hash_token current) t ≡ true
    → t.token_hash ≡ hash_token current
is_rotatable-hash hash_token now grace current t e =
    ground (arith, str_eq_iff t.token_hash (hash_token current))

-- A rotation that succeeds renews the session of the old token's user, and spends the old token.
pub rotate-IsRenewed :
    (hash_token : String → String) (decode_expiry : String → Option ℕ) (now grace fresh : ℕ)
    (current renewed : String) (meta : Metadata) (rows last : Tokens) (s : Session)
    → IsIntact rows
    → hash_token renewed ≢ hash_token current
    → rotate hash_token decode_expiry now grace fresh current renewed meta rows
      ≡ (last, ok (some s))
    → IsRenewed hash_token decode_expiry now grace current renewed rows last s
unfolding find_active_by_hash find_by_hash find_rotatable_by_hash
rotate-IsRenewed hash_token decode_expiry now grace fresh current renewed meta rows last s h ne e =
    elim (rotate-cases hash_token decode_expiry now grace fresh current renewed meta rows) [
      | inl q ↦ absurd (q.silent s (ap (λ (p : Tokens × Answer (Option Session)). p.1) e))
      | inr q ↦
          let both = sym e ∙ q.result in
          let session_eq : s ≡ record { user_id = q.session.user_id; expires_at = q.expires } =
            cc (ap (λ (p : Tokens × Answer (Option Session)). p.1) both) in
          let found =
            mem-select_one (is_rotatable now grace (hash_token current)) rows q.session q.found in
          let passes =
            select_one_sound (is_rotatable now grace (hash_token current)) rows q.session q.found in
          let named = is_rotatable-hash hash_token now grace current q.session passes in
          let new =
            new_token now fresh
              (token_of hash_token decode_expiry renewed q.session.user_id q.expires meta) in
          let rest = revoke_current hash_token decode_expiry now q.session rows in
          let shape : last ≡ new ∷ rest =
            ap (λ (p : Tokens × Answer (Option Session)). p.0) both
            ∙ insert-eq now fresh _ rest q.inserted in
          record {
            old = q.session;
            listed = found;
            named = named;
            valid = ground arith;
            same_user = ap (λ (x : Session). x.user_id) session_eq;
            spent = select_one-none (is_active now (hash_token current)) last (
                subst (All (λ x. is_active now (hash_token current) x ≡ false)) (sym shape) (
                  ground (arith, str_eq_iff (hash_token renewed) (hash_token current)),
                  revoke_current-spent hash_token decode_expiry now current q.session rows h found
                      named,
                ));
            new = new;
            kept = rw shape (ground (arith, str_eq_iff (hash_token renewed) (hash_token renewed)));
            live = (
              refl,
              sym (ap (λ (x : Session). x.user_id) session_eq),
              sym (ap (λ (x : Session). x.expires_at) session_eq),
            );
          }
    ]

-- The grace period holds for every revocation, not only for that of a rotation: a token that its
-- user has just revoked by signing out still opens a new session within the period.
pub rotate-after_revoke :
    (hash_token : String → String) (decode_expiry : String → Option ℕ)
    (signed_out now grace fresh expires : ℕ) (current renewed : String) (meta : Metadata)
    (rows : Tokens) (t : Token)
    → IsIntact rows
    → Memᴰ t rows
    → t.token_hash ≡ hash_token current
    → t.is_revoked ≡ false
    → now < t.expires_at
    → now < signed_out + grace * 1000
    → decode_expiry renewed ≡ some expires
    → All (λ x. x.token_hash ≢ hash_token renewed) rows
    → (rotate hash_token decode_expiry now grace fresh current renewed meta
        (revoke_by_hash signed_out (hash_token current) rows).0).1
      ≡ ok (some (record { user_id = t.user_id; expires_at = expires }))
unfolding rotate revoke_by_hash find_rotatable_by_hash
rotate-after_revoke hash_token decode_expiry signed_out now grace fresh expires current renewed meta
      rows t h m e live valid soon d free =
    let out = revoke_row signed_out t in
    let test = is_rotatable now grace (hash_token current) in
    let after = update_where (is_live_hash (hash_token current)) (revoke_row signed_out) rows in
    let listed : Memᴰ out after =
      mem-update_where_hit (is_live_hash (hash_token current)) (revoke_row signed_out) rows
        (ground (arith, str_eq_iff t.token_hash (hash_token current))) m in
    let unique =
      IsUnique-update_where hash_of (is_live_hash (hash_token current)) (revoke_row signed_out) rows
        (λ x. refl) h.hashes in
    let only : All (λ x. test x ≡ true → x ≡ out) after =
      All-map _ _ after (λ x o p. o (is_rotatable-hash hash_token now grace current x p ∙ sym e))
        (IsUnique-mem hash_of after unique listed) in
    let passes : test out ≡ true = ground (arith, str_eq_iff t.token_hash (hash_token current)) in
    let found = select_one-only test after out listed passes only in
    let absent = select_one-none (has_hash (hash_token renewed)) after (
      All-update_where_to _ (λ x. has_hash (hash_token renewed) x ≡ false)
        (is_live_hash (hash_token current)) (revoke_row signed_out) rows
        (λ x p q. ground (arith, str_eq_iff x.token_hash (hash_token renewed)))
        (λ x p q. ground (arith, str_eq_iff x.token_hash (hash_token renewed))) free) in
    rw (found, rotate)
      (rw d (
        rw (
          insert-absent now fresh (token_of hash_token decode_expiry renewed t.user_id expires meta)
            after absent)))
