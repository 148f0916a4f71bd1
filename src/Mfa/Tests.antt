-- ===== src/Mfa/Tests.antt =====
-- Runs of the second factor on small tables.
use Prim.Native.String.{◌++◌}
use be_weavecarbon.Common.{
  ℕ, ◌≡◌, refl, String, Bool, true, false, Option, none, some, [], ◌∷◌, arith, str_eq, select_one,
  if◌then◌else◌,
}
use be_weavecarbon.Mfa.Factors.{
  Factor, Store, created, pending, enabled, disabled, active, latest, newest, consume, offered_row,
  confirmed_row, disabled_row, of_user,
}
use be_weavecarbon.Mfa.Challenges.{
  verify_challenge, use_recovery, begin_enrollment, confirm_enrollment, disable,
}
use be_weavecarbon.Mfa.History.{Reach}
use be_weavecarbon.Mfa.Active.{active-switched_on, is_off, switched_on}
use be_weavecarbon.Mfa.Operations.{begin_enrollment-revives}
use be_weavecarbon.Mfa.Confirmation.{IsConfirmed, confirm_enrollment-IsConfirmed}
use be_weavecarbon.Mfa.Recovery.{recovery-used_once}

-- Parameters to run with: the code of a secret is the secret, and a digest is the code and the salt.
abbrev unseal : Option String → ℕ → String
unseal none user = ""
unseal (some s) user = s

abbrev code_at : String → ℕ → String
code_at secret counter = secret

abbrev digest : String → String → String
digest code salt = code ++ salt

abbrev is_code : String → Bool
is_code code = true

abbrev is_password : ℕ → String → Bool
is_password user password = str_eq password "pw"

abbrev on_row : Factor
on_row = record {
  id = 1;
  user_id = 7;
  revision = 1;
  status = enabled;
  secret = some "k";
  recovery_code_hashes = (record { salt = "x"; hash = "rx" }) ∷ [];
  reason = "MFA enrollment confirmed.";
}

abbrev off_row : Factor
off_row = record {
  id = 2;
  user_id = 7;
  revision = 2;
  status = disabled;
  secret = none;
  recovery_code_hashes = [];
  reason = "lost";
}

abbrev offer_row : Factor
offer_row = record on_row {
  id = 3;
  revision = 2;
  status = pending;
  secret = some "n";
  recovery_code_hashes = [];
}

abbrev on_store : Store
on_store = record { factors = on_row ∷ []; consumptions = [] }

abbrev off_store : Store
off_store = record { factors = off_row ∷ on_row ∷ []; consumptions = [] }

abbrev offer_store : Store
offer_store = record { factors = offer_row ∷ on_row ∷ []; consumptions = [] }

-- A recovery code passes once.
recovery_passes :
    (verify_challenge unseal code_at digest is_code is_password 0 7 "r" on_store).1 ≡ true
unfolding verify_challenge active latest newest use_recovery consume
recovery_passes = refl

active-switched_on_example : active 7 off_store.factors ≡ (
    if is_off (select_one (of_user 7) off_store.factors)
    then none
    else select_one (switched_on 7) off_store.factors)
active-switched_on_example =
    active-switched_on 7 off_store.factors (((λ e. omega arith), tt), (tt, tt))

begins_on :
    (begin_enrollment unseal code_at digest is_code is_password 0 9 7 "pw" "k" "n" on_store).1
    ≡ created (offered_row 9 7 "n" on_store)
unfolding begin_enrollment verify_challenge active latest newest use_recovery consume
begins_on = refl

begins_off :
    (begin_enrollment unseal code_at digest is_code is_password 0 9 7 "pw" "" "n" off_store).1
    ≡ created (offered_row 9 7 "n" off_store)
unfolding begin_enrollment verify_challenge active latest newest use_recovery consume
begins_off = refl

begin_enrollment-revives_example :
    (active 7 off_store.factors ≡ none)
    × (active 7
          (begin_enrollment unseal code_at digest is_code is_password 0 9 7 "pw" "" "n"
            off_store).0.factors
        ≡ some on_row)
begin_enrollment-revives_example =
    begin_enrollment-revives unseal code_at digest is_code is_password 0 9 7 "pw" "" "n" off_store
      (offered_row 9 7 "n" off_store) on_row (((λ e. omega arith), tt), (tt, tt)) refl refl
      begins_off

confirms :
    (confirm_enrollment unseal code_at digest is_code is_password 0 9 7 "n" [] offer_store).1
    ≡ created (confirmed_row 9 7 [] offer_row offer_store)
unfolding confirm_enrollment latest newest
confirms = refl

confirm_enrollment-IsConfirmed_example :
    IsConfirmed unseal code_at digest is_code is_password 0 7 "n" offer_store
      (confirmed_row 9 7 [] offer_row offer_store)
      (confirm_enrollment unseal code_at digest is_code is_password 0 9 7 "n" [] offer_store).0
confirm_enrollment-IsConfirmed_example =
    confirm_enrollment-IsConfirmed unseal code_at digest is_code is_password 0 9 7 "n" []
      offer_store (confirmed_row 9 7 [] offer_row offer_store) (((λ e. omega arith), tt), (tt, tt))
      confirms

disables :
    (disable unseal code_at digest is_code is_password 0 9 7 "pw" "k" "lost" on_store).1
    ≡ created (disabled_row 9 7 "lost" on_store)
unfolding disable verify_challenge active latest newest use_recovery consume
disables = refl

active_on : active 7 on_store.factors ≡ some on_row
unfolding active latest newest
active_on = refl

active_after :
    active 7 (verify_challenge unseal code_at digest is_code is_password 0 7 "r" on_store).0.factors
    ≡ some on_row
unfolding verify_challenge active latest newest use_recovery consume
active_after = refl

recovery-used_once_example :
    verify_challenge unseal code_at digest is_code is_password 5 7 "r"
      (verify_challenge unseal code_at digest is_code is_password 0 7 "r" on_store).0
    ≡ ((verify_challenge unseal code_at digest is_code is_password 0 7 "r" on_store).0, false)
recovery-used_once_example =
    recovery-used_once unseal code_at digest is_code is_password 0 5 7 on_row "r" on_store
      (verify_challenge unseal code_at digest is_code is_password 0 7 "r" on_store).0 active_on refl
      recovery_passes Reach.here active_after refl
