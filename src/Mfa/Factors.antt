-- ===== src/Mfa/Factors.antt =====
-- The tables `user_mfa_factor_revisions` and `user_mfa_recovery_code_consumptions` of
-- src/modules/auth/mfaService.js: the choice of the active factor, the rows that the operations write
-- and the use of a recovery code. The encrypted columns of a secret are one text.
use be_weavecarbon.Common.{
  ℕ, suc, ◌-◌, String, Bool, true, false, ◌&&◌, Option, none, some, List, [], ◌∷◌, ltb, ◌==◌,
  str_eq, if◌then◌else◌, is_some, length, select_one, count_where,
}

pub data FactorStatus : Type 0 where
  pending : FactorStatus
  enabled : FactorStatus
  disabled : FactorStatus

pub record RecoveryHash : Type 0 where
  pub salt : String
  pub hash : String

pub record Factor : Type 0 where
  pub id : ℕ
  pub user_id : ℕ
  pub revision : ℕ
  pub status : FactorStatus
  pub secret : Option String
  pub recovery_code_hashes : List RecoveryHash
  pub reason : String

pub record Consumption : Type 0 where
  pub user_id : ℕ
  pub factor_revision_id : ℕ
  pub recovery_hash : String

pub record Store : Type 0 where
  pub factors : List Factor
  pub consumptions : List Consumption

abbrev pub is_enabled : FactorStatus → Bool
is_enabled enabled = true
is_enabled _ = false

abbrev pub is_disabled : FactorStatus → Bool
is_disabled disabled = true
is_disabled _ = false

abbrev pub is_pending : FactorStatus → Bool
is_pending pending = true
is_pending _ = false

abbrev pub of_user : ℕ → Factor → Bool
of_user user f = f.user_id == user

abbrev pub newer : Factor → Option Factor → Factor
newer f none = f
newer f (some g) = if ltb f.revision g.revision then g else f

-- `SELECT * ... WHERE test ORDER BY revision DESC LIMIT 1`
unfoldable pub newest : (Factor → Bool) → List Factor → Option Factor
newest test [] = none
newest test (f ∷ factors) =
    let rest = newest test factors in if test f then some (newer f rest) else rest

unfoldable pub latest : ℕ → List Factor → Option Factor
latest user factors = newest (of_user user) factors

-- `user_id=$1 AND status='enabled' AND revision < $2`
abbrev pub was_enabled : ℕ → ℕ → Factor → Bool
was_enabled user revision f = of_user user f && (is_enabled f.status && ltb f.revision revision)

unfoldable pub active : ℕ → List Factor → Option Factor
active user factors = elim (latest user factors) [
  | none ↦ none
  | some current ↦
      if is_disabled current.status
      then none
      else if is_enabled current.status
      then some current
      else newest (was_enabled user current.revision) factors
]

abbrev pub max_revision : ℕ → List Factor → ℕ
max_revision user [] = 0
max_revision user (f ∷ factors) =
    let rest = max_revision user factors in
    if of_user user f && ltb rest f.revision then f.revision else rest

-- `COALESCE(MAX(revision),0)+1`
unfoldable pub next_revision : ℕ → List Factor → ℕ
next_revision user factors = suc (max_revision user factors)

abbrev pub is_consumption : ℕ → String → Consumption → Bool
is_consumption factor hash c = c.factor_revision_id == factor && str_eq c.recovery_hash hash

-- The INSERT with ON CONFLICT DO NOTHING, with whether it returned a row.
unfoldable pub consume : ℕ → ℕ → String → Store → Store × Bool
consume user factor hash store =
    if is_some (select_one (is_consumption factor hash) store.consumptions)
    then (store, false)
    else (
      record store {
        consumptions =
            (record { user_id = user; factor_revision_id = factor; recovery_hash = hash })
            ∷ store.consumptions;
      },
      true,
    )

pub data Answer : Type 0 where
  blocked : String → Answer
  created : Factor → Answer

abbrev pub with_factor : Factor → Store → Store × Answer
with_factor f store = (record store { factors = f ∷ store.factors }, created f)

-- `getChallengeState`
pub record ChallengeState : Type 0 where
  pub enabled : Bool
  pub status : Option FactorStatus
  pub revision : ℕ
  pub active_revision : Option ℕ

unfoldable pub get_challenge_state : ℕ → Store → ChallengeState
get_challenge_state user store = record {
  enabled = is_some (active user store.factors);
  status = elim (latest user store.factors) [ none ↦ none | some f ↦ some f.status ];
  revision = elim (latest user store.factors) [ none ↦ 0 | some f ↦ f.revision ];
  active_revision = elim (active user store.factors) [ none ↦ none | some f ↦ some f.revision ];
}

-- `recoveryCodesRemaining` of `getStatus`
unfoldable pub recovery_codes_remaining : ℕ → Store → ℕ
recovery_codes_remaining user store = elim (active user store.factors) [
  | none ↦ 0
  | some f ↦
      length f.recovery_code_hashes
      - count_where (λ c. c.factor_revision_id == f.id && c.user_id == user) store.consumptions
]

-- The row that `beginEnrollment` writes.
abbrev pub offered_row : ℕ → ℕ → String → Store → Factor
offered_row fresh user sealed store = record {
  id = fresh;
  user_id = user;
  revision = next_revision user store.factors;
  status = pending;
  secret = some sealed;
  recovery_code_hashes = [];
  reason =
      if elim (latest user store.factors) [ none ↦ false | some f ↦ is_enabled f.status ]
      then "MFA factor rotation initiated."
      else "MFA enrollment initiated.";
}

abbrev pub enroll : ℕ → ℕ → String → Store → Store × Answer
enroll fresh user sealed store = with_factor (offered_row fresh user sealed store) store

-- The row that `confirmEnrollment` writes.
abbrev pub confirmed_row : ℕ → ℕ → List RecoveryHash → Factor → Store → Factor
confirmed_row fresh user hashes offer store = record {
  id = fresh;
  user_id = user;
  revision = next_revision user store.factors;
  status = enabled;
  secret = offer.secret;
  recovery_code_hashes = hashes;
  reason = "MFA enrollment confirmed.";
}

abbrev pub confirm : ℕ → ℕ → List RecoveryHash → Factor → Store → Store × Answer
confirm fresh user hashes offer store =
    with_factor (confirmed_row fresh user hashes offer store) store

-- The row that `disable` writes.
abbrev pub disabled_row : ℕ → ℕ → String → Store → Factor
disabled_row fresh user reason store = record {
  id = fresh;
  user_id = user;
  revision = next_revision user store.factors;
  status = disabled;
  secret = none;
  recovery_code_hashes = [];
  reason = reason;
}

abbrev pub switch_off : ℕ → ℕ → String → Store → Store × Answer
switch_off fresh user reason store = with_factor (disabled_row fresh user reason store) store
