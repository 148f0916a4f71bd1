-- ===== src/Sessions/Tests.antt =====
-- Runs of the refresh token operations on small tables.
use Prim.Native.String.{◌++◌}
use mathlib.Core.List.{Memᴰ}
use be_weavecarbon.Common.{
  ℕ, ◌≡◌, ◌≢◌, refl, String, true, false, Option, none, some, [], ◌∷◌, arith, str_eq_iff,
}
use be_weavecarbon.Sessions.Tokens.{
  Token, Tokens, Session, Metadata, ok, revoke_by_hash, rotate, store, insert,
  find_rotatable_by_hash, revoke_by_id,
}
use be_weavecarbon.Sessions.Invariant.{IsIntact, Step, Reach, Reach-IsIntact}
use be_weavecarbon.Sessions.Revocation.{revoked-never_rotates}
use be_weavecarbon.Sessions.Rotation.{IsRenewed, rotate-IsRenewed}

-- A hash and an expiry to run with.
abbrev hash : String → String
hash token = "h" ++ token

abbrev expiry : String → Option ℕ
expiry token = some 9000

abbrev meta : Metadata
meta = record { ip_address = none; user_agent = none }

abbrev live : Token
live = record {
  id = 1;
  user_id = 7;
  token_hash = "ha";
  expires_at = 9000000;
  is_revoked = false;
  revoked_at = none;
  ip_address = none;
  user_agent = none;
  created_at = 0;
}

abbrev spent : Token
spent = record live { is_revoked = true; revoked_at = some 1000 }

empty-IsIntact : IsIntact []
empty-IsIntact = record { consistent = tt; ids = tt; hashes = tt }

live-IsIntact : IsIntact (live ∷ [])
live-IsIntact = record { consistent = (refl, tt); ids = (tt, tt); hashes = (tt, tt) }

spent-IsIntact : IsIntact (spent ∷ [])
spent-IsIntact = record { consistent = (refl, tt); ids = (tt, tt); hashes = (tt, tt) }

Reach-IsIntact_example :
    IsIntact (revoke_by_hash 20 (hash "a") (store hash expiry 10 1 "a" 7 meta []).0).0
Reach-IsIntact_example =
    Reach-IsIntact hash expiry empty-IsIntact
      (Reach.next (Reach.next Reach.here (Step.stored 10 1 "a" 7 meta tt)) (Step.revoked 20 "a"))

revoked-never_rotates_example :
    rotate hash expiry 31000 30 2 "a" "b" meta (spent ∷ []) ≡ (spent ∷ [], ok none)
revoked-never_rotates_example =
    revoked-never_rotates hash expiry 31000 30 2 1000 "a" "b" meta spent spent-IsIntact
      (Memᴰ.head refl) refl refl refl (omega arith) Reach.here

a_not_b : hash "b" ≢ hash "a"
a_not_b = ground (arith, str_eq_iff "hb" "ha")

abbrev rotated : Tokens
rotated =
    record live { id = 2; token_hash = "hb"; expires_at = 9000; created_at = 500 }
    ∷ record live { is_revoked = true; revoked_at = some 500 }
    ∷ []

abbrev renewed_session : Session
renewed_session = record { user_id = 7; expires_at = 9000 }

rotates :
    rotate hash expiry 500 30 2 "a" "b" meta (live ∷ []) ≡ (rotated, ok (some renewed_session))
unfolding rotate insert find_rotatable_by_hash revoke_by_id
rotates = refl

rotate-IsRenewed_example : IsRenewed hash expiry 500 30 "a" "b" (live ∷ []) rotated renewed_session
rotate-IsRenewed_example =
    rotate-IsRenewed hash expiry 500 30 2 "a" "b" meta (live ∷ []) rotated renewed_session
      live-IsIntact a_not_b rotates
