-- ===== src/Sessions/Revocation.antt =====
-- Revocation of refresh tokens (src/modules/auth/refreshTokenRepository.js and
-- refreshSessionService.js beside it): that it lasts, and what the grace period leaves open.
use mathlib.Core.List.{Memᴰ}
use be_weavecarbon.Common.{
  ℕ, ◌+◌, ◌*◌, ◌≤◌, String, true, false, ◌≡◌, sym, ap, ◌∙◌, subst, Option, some, none, ◌∷◌, arith,
  is_some, All-map, All-mem, IsUnique-mem, inl, inr, Option-cases, Bool-cases, str_eq, str_eq_iff,
  select_one, select_one-none, mem-update_where_miss, ==_iff, if_intro, mem-select_one,
}
use be_weavecarbon.Sessions.Tokens.{
  Token, Tokens, NewToken, Metadata, ok, has_hash, new_token, insert, is_live_hash, revoke_row,
  revoke_by_hash, has_id, revoke_by_id, is_live_user, revoke_all_for_user, revoke_current,
  is_rotatable, token_of, store, rotate, find_rotatable_by_hash,
}
use be_weavecarbon.Sessions.Invariant.{
  IsIntact, token_id, hash_of, Step, Reach, rotate-cases, Reach-IsIntact,
}

insert-keeps :
    (now fresh : ℕ) (n : NewToken) (rows : Tokens) {last : Tokens} {t : Token}
    → insert now fresh n rows ≡ some last
    → Memᴰ t rows
    → Memᴰ t last
unfolding insert
insert-keeps now fresh n rows {last} {t} e m =
    elim (Bool-cases (is_some (select_one (has_hash n.token_hash) rows))) [
      | inl d ↦ absurd (ground arith)
      | inr d ↦
          let same : new_token now fresh n ∷ rows ≡ last = ground arith in
          subst (Memᴰ t) same (Memᴰ.tail m)
    ]

module _ (hash_token : String → String) (decode_expiry : String → Option ℕ) where
  store-keeps :
      (now fresh : ℕ) (token : String) (user : ℕ) (meta : Metadata) (rows : Tokens) (t : Token)
      → Memᴰ t rows
      → Memᴰ t (store hash_token decode_expiry now fresh token user meta rows).0
  unfolding store
  store-keeps now fresh token user meta rows t m = elim (Option-cases (decode_expiry token)) [
    | inl d ↦ rw (d, store) m
    | inr (expires, d) ↦
        elim (Option-cases
          (insert now fresh (token_of hash_token decode_expiry token user expires meta) rows)) [
            | inl i ↦ rw (d, store) (rw i m)
            | inr (last, i) ↦ rw (d, store) (rw i (insert-keeps now fresh _ rows i m))
          ]
  ]

  -- The token that a rotation revokes is live, so that a revoked one is another row.
  revoke_current-keeps :
      (now : ℕ) (session t : Token) (rows : Tokens)
      → IsIntact rows
      → Memᴰ session rows
      → t.is_revoked ≡ true
      → Memᴰ t rows
      → Memᴰ t (revoke_current hash_token decode_expiry now session rows)
  unfolding revoke_by_id
  revoke_current-keeps now session t rows h found r m =
      if_intro (Memᴰ t) session.is_revoked (λ _. m)
        (λ live.
          mem-update_where_miss (has_id session.id) (revoke_row now) rows
            (elim (Bool-cases (has_id session.id t)) [
              | inr other ↦ other
              | inl same ↦
                  let e : t ≡ session =
                    All-mem _ rows m (IsUnique-mem token_id rows h.ids found)
                      ((==_iff t.id session.id).0 same) in
                  absurd (ground (arith, ap (λ (x : Token). x.is_revoked) e))
            ])
            m)

  Step-keeps_revoked :
      {rows last : Tokens} (t : Token)
      → IsIntact rows
      → t.is_revoked ≡ true
      → Memᴰ t rows
      → Step hash_token decode_expiry rows last
      → Memᴰ t last
  unfolding revoke_by_hash revoke_all_for_user find_rotatable_by_hash
  Step-keeps_revoked {rows} t h r m (Step.stored now fresh token user meta new) =
      store-keeps now fresh token user meta rows t m
  Step-keeps_revoked {rows} t h r m (Step.rotated now grace fresh current renewed meta new) =
      elim (rotate-cases hash_token decode_expiry now grace fresh current renewed meta rows) [
        | inl q ↦ rw q.unchanged m
        | inr q ↦ rw q.result (
            insert-keeps now fresh _ (revoke_current hash_token decode_expiry now q.session rows)
              q.inserted
              (revoke_current-keeps now q.session t rows h
                (mem-select_one (is_rotatable now grace (hash_token current)) rows q.session
                  q.found)
                r m))
      ]
  Step-keeps_revoked {rows} t h r m (Step.revoked now token) =
      mem-update_where_miss (is_live_hash (hash_token token)) (revoke_row now) rows (ground arith) m
  Step-keeps_revoked {rows} t h r m (Step.revoked_all now user) =
      mem-update_where_miss (is_live_user user) (revoke_row now) rows (ground arith) m

  Reach-keeps_revoked :
      {rows last : Tokens} (t : Token)
      → IsIntact rows
      → t.is_revoked ≡ true
      → Memᴰ t rows
      → Reach hash_token decode_expiry rows last
      → Memᴰ t last
  Reach-keeps_revoked t h r m Reach.here = m
  Reach-keeps_revoked t h r m (Reach.next s e) =
      Step-keeps_revoked t (Reach-IsIntact hash_token decode_expiry h s) r
        (Reach-keeps_revoked t h r m s) e

  unrotatable :
      (now grace at : ℕ) (current : String) (t x : Token)
      → t.token_hash ≡ hash_token current
      → t.is_revoked ≡ true
      → t.revoked_at ≡ some at
      → at + grace * 1000 ≤ now
      → (x.token_hash ≡ t.token_hash → x ≡ t)
      → is_rotatable now grace (hash_token current) x ≡ false
  unrotatable now grace at current t x e r a late only =
      elim (Bool-cases (str_eq x.token_hash (hash_token current))) [
        | inr other ↦ rw other
        | inl same ↦
            let w : x ≡ t = only ((str_eq_iff _ _).0 same ∙ sym e) in
            ground (arith, ap (λ (y : Token). y.is_revoked) w, ap (λ (y : Token). y.revoked_at) w)
      ]

  -- Once the grace period of a revoked token is over, it is never rotated again: whatever logins,
  -- refreshes and logouts come between, the rotation answers null and leaves the table alone.
  pub revoked-never_rotates :
      {rows last : Tokens} (now grace fresh at : ℕ) (current renewed : String) (meta : Metadata)
      (t : Token)
      → IsIntact rows
      → Memᴰ t rows
      → t.token_hash ≡ hash_token current
      → t.is_revoked ≡ true
      → t.revoked_at ≡ some at
      → at + grace * 1000 ≤ now
      → Reach hash_token decode_expiry rows last
      → rotate hash_token decode_expiry now grace fresh current renewed meta last ≡ (last, ok none)
  unfolding rotate find_rotatable_by_hash
  revoked-never_rotates {rows} {last} now grace fresh at current renewed meta t h m e r a late s =
      let sound = Reach-IsIntact hash_token decode_expiry h s in
      let only = IsUnique-mem hash_of last sound.hashes (Reach-keeps_revoked t h r m s) in
      let nobody = select_one-none (is_rotatable now grace (hash_token current)) last (
        All-map _ (λ x. is_rotatable now grace (hash_token current) x ≡ false) last
          (λ x o. unrotatable now grace at current t x e r a late o) only) in
      rw (nobody, rotate)
