-- ===== src/Sessions/Invariant.antt =====
-- The histories of `refresh_tokens` and what holds of every table that they reach
-- (src/modules/auth/refreshSessionService.js).
use be_weavecarbon.Common.{
  ℕ, String, Bool, false, ◌≡◌, ◌≢◌, ◌⊎◌, refl, subst, Option, some, ◌∷◌, arith, is_some, All,
  All-map, All-update_where, IsUnique, IsUnique-update_where, Lacks, inl, inr, Option-cases,
  str_eq_iff, select_one, select_one-All, update_where, if_intro,
}
use be_weavecarbon.Sessions.Tokens.{
  Token, Tokens, NewToken, Session, Metadata, ok, has_hash, new_token, insert, is_live_hash,
  revoke_row, revoke_by_hash, has_id, revoke_by_id, is_live_user, revoke_all_for_user,
  revoke_current, token_of, store, rotate, find_rotatable_by_hash,
}

abbrev pub token_id : Token → ℕ
token_id t = t.id

abbrev pub hash_of : Token → String
hash_of t = t.token_hash

-- A token is revoked exactly when the time of its revocation is known.
abbrev pub IsConsistent : Token → Type 0
IsConsistent t = is_some t.revoked_at ≡ t.is_revoked

pub record IsIntact (rows : Tokens) : Type 0 where
  pub consistent : All IsConsistent rows
  pub ids : IsUnique token_id rows
  pub hashes : IsUnique hash_of rows

update-IsIntact :
    (now : ℕ) (test : Token → Bool) (rows : Tokens)
    → IsIntact rows
    → IsIntact (update_where test (revoke_row now) rows)
update-IsIntact now test rows h = record {
  consistent =
      All-update_where IsConsistent test (revoke_row now) rows (λ t e c. refl) h.consistent;
  ids = IsUnique-update_where token_id test (revoke_row now) rows (λ t. refl) h.ids;
  hashes = IsUnique-update_where hash_of test (revoke_row now) rows (λ t. refl) h.hashes;
}

insert-IsIntact :
    (now fresh : ℕ) (t : NewToken) (rows : Tokens) {last : Tokens}
    → Lacks token_id fresh rows
    → IsIntact rows
    → insert now fresh t rows ≡ some last
    → IsIntact last
unfolding insert
insert-IsIntact now fresh t rows {last} new h e =
    elim (Option-cases (select_one (has_hash t.token_hash) rows)) [
      | inr (old, n) ↦ absurd (ground arith)
      | inl n ↦
          let same : new_token now fresh t ∷ rows ≡ last = ground arith in
          subst IsIntact same (record {
            consistent = (refl, h.consistent);
            ids = (new, h.ids);
            hashes = (
              All-map (λ r. has_hash t.token_hash r ≡ false) _ rows
                  (λ r q d. absurd (ground (arith, str_eq_iff r.token_hash t.token_hash)))
                  (select_one-All (has_hash t.token_hash) rows n),
              h.hashes,
            );
          })
    ]

module _ (hash_token : String → String) (decode_expiry : String → Option ℕ) (now grace fresh : ℕ)
    (current renewed : String) (meta : Metadata) (rows : Tokens) where
  -- A rotation that succeeds.
  pub record Rotates : Type 0 where
    pub session : Token
    pub expires : ℕ
    pub last : Tokens
    pub found : find_rotatable_by_hash now grace (hash_token current) rows ≡ some session
    pub decoded : decode_expiry renewed ≡ some expires
    pub inserted :
        insert now fresh
          (token_of hash_token decode_expiry renewed session.user_id expires meta)
          (revoke_current hash_token decode_expiry now session rows)
        ≡ some last
    pub result :
        rotate hash_token decode_expiry now grace fresh current renewed meta rows
        ≡ (last, ok (some (record { user_id = session.user_id; expires_at = expires })))

  -- One that does not leaves the table as it was.
  pub record Refuses : Type 0 where
    pub unchanged :
        (rotate hash_token decode_expiry now grace fresh current renewed meta rows).0 ≡ rows
    pub silent :
        (s : Session)
        → (rotate hash_token decode_expiry now grace fresh current renewed meta rows).1
          ≢ ok (some s)

  pub rotate-cases : Refuses ⊎ Rotates
  unfolding rotate
  rotate-cases = elim (Option-cases (find_rotatable_by_hash now grace (hash_token current) rows)) [
    | inl n ↦ inl (record { unchanged = rw (n, rotate); silent = λ s. rw (n, rotate) (λ e. cc) })
    | inr (session, n) ↦ elim (Option-cases (decode_expiry renewed)) [
      | inl d ↦ inl (record {
        unchanged = rw (n, rotate) (rw d);
        silent = λ s. rw (n, rotate) (rw d (λ e. cc));
      })
      | inr (expires, d) ↦
          elim (Option-cases (
            insert now fresh
              (token_of hash_token decode_expiry renewed session.user_id expires meta)
              (revoke_current hash_token decode_expiry now session rows))) [
                | inl i ↦ inl (record {
                  unchanged = rw (n, rotate) (rw d (rw i));
                  silent = λ s. rw (n, rotate) (rw d (rw i (λ e. cc)));
                })
                | inr (last, i) ↦ inr (record {
                  session = session;
                  expires = expires;
                  last = last;
                  found = n;
                  decoded = d;
                  inserted = i;
                  result = rw (n, rotate) (rw d (rw i));
                })
              ]
    ]
  ]

-- The operations that change the table, with any parameters, in any order.
pub data Step (hash_token : String → String) (decode_expiry : String → Option ℕ) (rows : Tokens)
    : Tokens → Type 0 where
  stored :
      (now fresh : ℕ) (token : String) (user : ℕ) (meta : Metadata)
      → Lacks token_id fresh rows
      → Step hash_token decode_expiry rows
          (store hash_token decode_expiry now fresh token user meta rows).0
  rotated :
      (now grace fresh : ℕ) (current renewed : String) (meta : Metadata)
      → Lacks token_id fresh rows
      → Step hash_token decode_expiry rows
          (rotate hash_token decode_expiry now grace fresh current renewed meta rows).0
  revoked :
      (now : ℕ) (token : String)
      → Step hash_token decode_expiry rows (revoke_by_hash now (hash_token token) rows).0
  revoked_all :
      (now user : ℕ) → Step hash_token decode_expiry rows (revoke_all_for_user now user rows).0

pub data Reach (hash_token : String → String) (decode_expiry : String → Option ℕ) (rows : Tokens)
    : Tokens → Type 0 where
  here : Reach hash_token decode_expiry rows rows
  next :
      {mid last : Tokens}
      → Reach hash_token decode_expiry rows mid
      → Step hash_token decode_expiry mid last
      → Reach hash_token decode_expiry rows last

module _ (hash_token : String → String) (decode_expiry : String → Option ℕ) where
  revoke_current-IsIntact :
      (now : ℕ) (t : Token) (rows : Tokens)
      → IsIntact rows
      → IsIntact (revoke_current hash_token decode_expiry now t rows)
  unfolding revoke_by_id
  revoke_current-IsIntact now t rows h =
      if_intro IsIntact t.is_revoked (λ _. h) (λ _. update-IsIntact now (has_id t.id) rows h)

  revoke_current-Lacks :
      (now : ℕ) (t : Token) (fresh : ℕ) (rows : Tokens)
      → Lacks token_id fresh rows
      → Lacks token_id fresh (revoke_current hash_token decode_expiry now t rows)
  unfolding revoke_by_id
  revoke_current-Lacks now t fresh rows new =
      if_intro (Lacks token_id fresh) t.is_revoked (λ _. new)
        (λ _.
          All-update_where (λ r. r.id ≢ fresh) (has_id t.id) (revoke_row now) rows (λ r e q. q) new)

  store-IsIntact :
      (now fresh : ℕ) (token : String) (user : ℕ) (meta : Metadata) (rows : Tokens)
      → Lacks token_id fresh rows
      → IsIntact rows
      → IsIntact (store hash_token decode_expiry now fresh token user meta rows).0
  unfolding store
  store-IsIntact now fresh token user meta rows new h = elim (Option-cases (decode_expiry token)) [
    | inl d ↦ rw (d, store) h
    | inr (expires, d) ↦
        elim (Option-cases
          (insert now fresh (token_of hash_token decode_expiry token user expires meta) rows)) [
            | inl i ↦ rw (d, store) (rw i h)
            | inr (last, i) ↦ rw (d, store) (rw i (insert-IsIntact now fresh _ rows new h i))
          ]
  ]

  rotate-IsIntact :
      (now grace fresh : ℕ) (current renewed : String) (meta : Metadata) (rows : Tokens)
      → Lacks token_id fresh rows
      → IsIntact rows
      → IsIntact (rotate hash_token decode_expiry now grace fresh current renewed meta rows).0
  rotate-IsIntact now grace fresh current renewed meta rows new h =
      elim (rotate-cases hash_token decode_expiry now grace fresh current renewed meta rows) [
        | inl r ↦ rw r.unchanged h
        | inr r ↦ rw r.result (
            insert-IsIntact now fresh _ (revoke_current hash_token decode_expiry now r.session rows)
              (revoke_current-Lacks now r.session fresh rows new)
              (revoke_current-IsIntact now r.session rows h) r.inserted)
      ]

  pub Step-IsIntact :
      {rows last : Tokens} → IsIntact rows → Step hash_token decode_expiry rows last → IsIntact last
  unfolding revoke_by_hash revoke_all_for_user
  Step-IsIntact {rows} h (Step.stored now fresh token user meta new) =
      store-IsIntact now fresh token user meta rows new h
  Step-IsIntact {rows} h (Step.rotated now grace fresh current renewed meta new) =
      rotate-IsIntact now grace fresh current renewed meta rows new h
  Step-IsIntact {rows} h (Step.revoked now token) =
      update-IsIntact now (is_live_hash (hash_token token)) rows h
  Step-IsIntact {rows} h (Step.revoked_all now user) =
      update-IsIntact now (is_live_user user) rows h

  -- Every table that any sequence of logins, refreshes and logouts makes of a sound table is sound:
  -- no identifier and no token hash twice, and a time of revocation for the revoked tokens alone.
  pub Reach-IsIntact :
      {rows last : Tokens}
      → IsIntact rows
      → Reach hash_token decode_expiry rows last
      → IsIntact last
  Reach-IsIntact h Reach.here = h
  Reach-IsIntact h (Reach.next r s) = Step-IsIntact (Reach-IsIntact h r) s
