-- ===== src/Sessions/Tokens.antt =====
-- The table `refresh_tokens` with the statements of src/modules/auth/refreshTokenRepository.js, and
-- the operations of src/modules/auth/refreshSessionService.js. Times are milliseconds, `now` is
-- `NOW()`. The SHA-256 of a token and the expiry in its JWT are parameters.
use be_weavecarbon.Common.{
  ℕ, ◌+◌, ◌*◌, String, Bool, true, false, not, ◌&&◌, ◌||◌, Option, none, some, List, ◌∷◌, ltb, ◌==◌,
  str_eq, if◌then◌else◌, is_some, select_one, count_where, update_where,
}

pub record Token : Type 0 where
  pub id : ℕ
  pub user_id : ℕ
  pub token_hash : String
  pub expires_at : ℕ
  pub is_revoked : Bool
  pub revoked_at : Option ℕ
  pub ip_address : Option String
  pub user_agent : Option String
  pub created_at : ℕ

abbrev pub Tokens : Type 0
Tokens = List Token

pub record NewToken : Type 0 where
  pub user_id : ℕ
  pub token_hash : String
  pub expires_at : ℕ
  pub ip_address : Option String
  pub user_agent : Option String

abbrev pub has_hash : String → Token → Bool
has_hash hash t = str_eq t.token_hash hash

abbrev pub new_token : ℕ → ℕ → NewToken → Token
new_token now fresh t = record {
  id = fresh;
  user_id = t.user_id;
  token_hash = t.token_hash;
  expires_at = t.expires_at;
  is_revoked = false;
  revoked_at = none;
  ip_address = t.ip_address;
  user_agent = t.user_agent;
  created_at = now;
}

-- `insert`: none is the error of the UNIQUE constraint on `token_hash`.
unfoldable pub insert : ℕ → ℕ → NewToken → Tokens → Option Tokens
insert now fresh t rows =
    if is_some (select_one (has_hash t.token_hash) rows)
    then none
    else some (new_token now fresh t ∷ rows)

unfoldable pub find_by_hash : String → Tokens → Option Token
find_by_hash hash rows = select_one (has_hash hash) rows

abbrev pub is_active : ℕ → String → Token → Bool
is_active now hash t = has_hash hash t && (not t.is_revoked && ltb now t.expires_at)

unfoldable pub find_active_by_hash : ℕ → String → Tokens → Option Token
find_active_by_hash now hash rows = select_one (is_active now hash) rows

-- `revoked_at > NOW() - ($2::int * INTERVAL '1 second')`, and not NULL
abbrev pub in_grace : ℕ → ℕ → Option ℕ → Bool
in_grace now grace none = false
in_grace now grace (some at) = ltb now (at + grace * 1000)

abbrev pub is_rotatable : ℕ → ℕ → String → Token → Bool
is_rotatable now grace hash t =
    has_hash hash t
    && (ltb now t.expires_at
        && (not t.is_revoked || t.is_revoked && in_grace now grace t.revoked_at))

unfoldable pub find_rotatable_by_hash : ℕ → ℕ → String → Tokens → Option Token
find_rotatable_by_hash now grace hash rows = select_one (is_rotatable now grace hash) rows

abbrev pub revoke_row : ℕ → Token → Token
revoke_row now t = record t { is_revoked = true; revoked_at = some now }

abbrev pub is_live_hash : String → Token → Bool
is_live_hash hash t = has_hash hash t && not t.is_revoked

unfoldable pub revoke_by_hash : ℕ → String → Tokens → Tokens × ℕ
revoke_by_hash now hash rows =
    (update_where (is_live_hash hash) (revoke_row now) rows, count_where (is_live_hash hash) rows)

abbrev pub has_id : ℕ → Token → Bool
has_id i t = t.id == i

unfoldable pub revoke_by_id : ℕ → ℕ → Tokens → Tokens
revoke_by_id now i rows = update_where (has_id i) (revoke_row now) rows

abbrev pub is_live_user : ℕ → Token → Bool
is_live_user user t = t.user_id == user && not t.is_revoked

unfoldable pub revoke_all_for_user : ℕ → ℕ → Tokens → Tokens × ℕ
revoke_all_for_user now user rows =
    (update_where (is_live_user user) (revoke_row now) rows, count_where (is_live_user user) rows)

-- What an operation answers, or the error that it throws.
pub data Answer {ℓ} (A : Type ℓ) : Type ℓ where
  ok : A → Answer A
  expiry_unknown : Answer A
  duplicate_token : Answer A

pub record Session : Type 0 where
  pub user_id : ℕ
  pub expires_at : ℕ

pub record Metadata : Type 0 where
  pub ip_address : Option String
  pub user_agent : Option String

module _ (hash_token : String → String) (decode_expiry : String → Option ℕ) where
  abbrev pub token_of : String → ℕ → ℕ → Metadata → NewToken
  token_of token user expires meta = record {
    user_id = user;
    token_hash = hash_token token;
    expires_at = expires;
    ip_address = meta.ip_address;
    user_agent = meta.user_agent;
  }

  abbrev pub stored : Tokens → ℕ → ℕ → Option Tokens → Tokens × Answer Session
  stored rows user expires none = (rows, duplicate_token)
  stored rows user expires (some last) =
      (last, ok (record { user_id = user; expires_at = expires }))

  -- `store`
  unfoldable pub store : ℕ → ℕ → String → ℕ → Metadata → Tokens → Tokens × Answer Session
  store now fresh token user meta rows = elim (decode_expiry token) [
    | none ↦ (rows, expiry_unknown)
    | some expires ↦
        stored rows user expires (insert now fresh (token_of token user expires meta) rows)
  ]

  -- `is_revoked` is left as it is, and with it the time of the revocation.
  abbrev pub revoke_current : ℕ → Token → Tokens → Tokens
  revoke_current now t rows = if t.is_revoked then rows else revoke_by_id now t.id rows

  abbrev rotated : Tokens → ℕ → ℕ → Option Tokens → Tokens × Answer (Option Session)
  rotated rows user expires none = (rows, duplicate_token)
  rotated rows user expires (some last) =
      (last, ok (some (record { user_id = user; expires_at = expires })))

  -- `rotate` in its transaction: what is thrown, and a token that may not be rotated, roll the
  -- table back.
  unfoldable pub rotate :
      ℕ → ℕ → ℕ → String → String → Metadata → Tokens → Tokens × Answer (Option Session)
  rotate now grace fresh current next meta rows =
      elim (find_rotatable_by_hash now grace (hash_token current) rows) [
        | none ↦ (rows, ok none)
        | some session ↦ elim (decode_expiry next) [
          | none ↦ (rows, expiry_unknown)
          | some expires ↦ rotated rows session.user_id expires (
              insert now fresh (token_of next session.user_id expires meta)
                (revoke_current now session rows))
        ]
      ]
