-- ===== src/Logins/VerificationTests.antt =====
-- Verified addresses and accepted invitations on small tables.
use be_weavecarbon.Common.{none, true, false, ◌≡◌, refl, some, [], ◌∷◌, str_eq, if◌then◌else◌}
use be_weavecarbon.Members.Team.{Member, User, member, invited, active, disabled}
use be_weavecarbon.Guards.Request.{company_membership, primary_membership}
use be_weavecarbon.Logins.Context.{Login}
use be_weavecarbon.Logins.Verification.{
  Verifier, Between, Accounts, Verification, answered, rejected, mark_email_verified, verify_email,
  resend_verification, accept_company_invite,
}
use be_weavecarbon.Logins.Confirmed.{IsConfirmed, verify_email-IsConfirmed}

abbrev verifier : Verifier
verifier = record {
  trim = λ text. text;
  to_lower_case = λ text. if str_eq text "N@A" then "n@a" else text;
  verify_email_token = λ token. some (record { type = "email_verification"; email = token });
  verify_company_invite_token =
      λ token. some (record { type = "company_invite"; email = token; company_id = some 5 });
  generate_verification_token = λ address. address;
}

abbrev new_user : User
new_user = record { id = 9; email = "n@a"; full_name = "N"; roles = "b2b" ∷ [] }

abbrev new_login : Login
new_login = record {
  user = new_user;
  password_hash = some "pw";
  email_verified = false;
  is_demo_user = false;
  company_id = some 5;
}

abbrev invited_seat : Member
invited_seat = record {
  id = 2;
  company_id = 5;
  user_id = 9;
  role = member;
  status = invited;
  invited_by = some 1;
  created_at = 0;
  updated_at = 0;
}

abbrev accounts_with : Member → Accounts
accounts_with seat = record {
  logins = new_login ∷ [];
  team = record {
    companies = (record { id = 5; name = "A" }) ∷ [];
    users = new_user ∷ [];
    profiles = [];
    members = seat ∷ [];
  };
}

abbrev confirmed_login : Login
confirmed_login = record new_login { email_verified = true }

-- Nobody else writes.
abbrev alone : Between
alone = record {
  before_seat = λ s. s;
  before_confirm = λ s. s;
  before_activation = λ s. s;
  before_login = λ s. s;
  before_refresh = λ s. s;
}

-- An administrator disables the seat after it was read.
abbrev disabling : Between
disabling = record alone {
  before_activation = λ s. record s {
    team = record s.team { members = (record invited_seat { status = disabled }) ∷ [] };
  };
}

-- The invitation is answered all the same, and the user is no member.
accepts_disabled :
    (accept_company_invite verifier 30 disabling "N@A" (accounts_with invited_seat)).0.team.members
    ≡ (record invited_seat { status = disabled; updated_at = 30 }) ∷ []
unfolding accept_company_invite company_membership mark_email_verified
accepts_disabled = refl

accepts : accept_company_invite verifier 30 alone "N@A" (accounts_with invited_seat) ≡ (
  record (accounts_with (record invited_seat { status = active; updated_at = 30 })) {
    logins = confirmed_login ∷ [];
  },
  answered (5, confirmed_login),
)
unfolding accept_company_invite company_membership mark_email_verified
accepts = refl

refuses_disabled :
    (accept_company_invite verifier 30 alone "n@a"
      (accounts_with (record invited_seat { status = disabled }))).1
    ≡ rejected 403 "INVITE_DISABLED"
unfolding accept_company_invite company_membership
refuses_disabled = refl

abbrev shown : Verification
shown = record { already_verified = false; user = new_login; company_id_for_token = some 5 }

verifies :
    (verify_email verifier "N@A" "N@A" true false (accounts_with invited_seat)).1 ≡ answered shown
unfolding verify_email mark_email_verified primary_membership
verifies = refl

verify_email-IsConfirmed_example :
    IsConfirmed verifier "N@A" "N@A" true false
      (accounts_with invited_seat)
      shown
      (verify_email verifier "N@A" "N@A" true false (accounts_with invited_seat)).0
verify_email-IsConfirmed_example =
    verify_email-IsConfirmed verifier "N@A" "N@A" true false (accounts_with invited_seat) shown
      verifies

-- Without normalizing, the address has to be spelled as in the table.
refuses_spelling :
    (verify_email verifier "N@A" "N@A" false true (accounts_with invited_seat)).1
    ≡ rejected 404 "USER_NOT_FOUND"
unfolding verify_email
refuses_spelling = refl

sends_again :
    (resend_verification verifier "n@a" (accounts_with invited_seat)
      ≡ answered (record {
        sent = true;
        hidden = false;
        mail = some (record { to = "n@a"; token = "n@a"; full_name = "N" });
      }))
    × (resend_verification verifier "x@a" (accounts_with invited_seat)
        ≡ answered (record { sent = false; hidden = true; mail = none }))
unfolding resend_verification
sends_again = (refl, refl)
