-- ===== src/Login/Tests.antt =====
-- One account with multi-factor authentication. The password check is equality, the code is "123456".
use cerradura_magnetica.Prelude.{
  ℕ, find_row, ◌+◌, ◌≡◌, refl, Bool, true, String, text_eq, [], ◌∷◌, ◌++◌, none, some, ok, err,
  arith,
}
use cerradura_magnetica.Models.Auth.{operator}
use cerradura_magnetica.Sessions.{Db, AccessClaims, organization_active, purge_expired}
use cerradura_magnetica.Sessions.Rotation.{issue_tokens}
use cerradura_magnetica.Login.{
  Account, LoginRequest, State, Settings, locked, invalid_mfa, login, login_known, finish_login,
  second_factor, verify_code, consume, register_failed_login,
}
use cerradura_magnetica.Login.Factors.{Proven, login-Proven}
use cerradura_magnetica.Login.Lockout.{Attempt, after_all, lockout_holds}

abbrev plain : String → String
plain s = s

abbrev right_code : String → String → Bool
right_code secret code = text_eq code "123456"

abbrev settings : Settings
settings = record { max_attempts = 3; lockout = 900; lifetime = 3600 }

abbrev account : Account
account = record {
  user = record { id = 7; organization_id = none; role = operator; is_active = true };
  email = "a@b";
  hashed_password = "pw";
  failed_login_count = 1;
  locked_until = none;
  mfa_enabled = true;
  mfa_secret = some "k";
  mfa_recovery_hashes = "r1" ∷ "r2" ∷ [];
}

abbrev no_sessions : Db
no_sessions = record {
  sessions = [];
  tokens = [];
  users = [];
  organizations = [];
  next_session = 1;
  next_token = 1;
}

abbrev start : State
start = record { accounts = account ∷ []; db = no_sessions }

abbrev with_code : LoginRequest
with_code = record {
  email = "a@b";
  password = "pw";
  mfa_code = some "123456";
  recovery_code = none;
}

abbrev claims : AccessClaims
claims = record { sub = 7; org = none; role = operator; sid = "s" }

logged_in :
    (login text_eq right_code plain plain plain settings start with_code "s" "t" 100).1
    ≡ ok (claims, "t")
unfolding login login_known finish_login second_factor verify_code organization_active purge_expired
    issue_tokens
logged_in = refl

login-Proven_example :
    (a : Account) × Proven text_eq right_code plain plain plain a start with_code 100
login-Proven_example =
    login-Proven text_eq right_code plain plain plain settings start with_code "s" "t" 100
      (claims, "t") logged_in

-- A recovery code that the account holds is refused, is kept, and counts as a failure.
abbrev with_recovery : LoginRequest
with_recovery = record {
  email = "a@b";
  password = "pw";
  mfa_code = none;
  recovery_code = some "r1";
}

recovery_refused :
    login text_eq right_code plain plain plain settings start with_recovery "s" "t" 100
    ≡ (record start { accounts = record account { failed_login_count = 2 } ∷ [] }, err invalid_mfa)
unfolding login login_known finish_login second_factor verify_code consume register_failed_login
    organization_active
recovery_refused = refl

abbrev wrong : LoginRequest
wrong = record { email = "a@b"; password = "no"; mfa_code = none; recovery_code = none }

abbrev guess : ℕ → Attempt
guess now = record { body = wrong; session_id = "s"; refresh = "t"; now = now }

-- The account starts with one failure of the three; the right password comes too late.
lockout_holds_example :
    let after_two =
      after_all text_eq right_code plain plain plain settings start
        ((guess 100 ∷ []) ++ guess 110 ∷ []) in
    (find_row
        (λ (x : Account). text_eq x.email "a@b")
        (after_all text_eq right_code plain plain plain settings start (guess 100 ∷ [])).accounts
      ≡ some (record account { failed_login_count = 1 + 1 }))
    × (find_row (λ (x : Account). text_eq x.email "a@b") after_two.accounts
        ≡ some (record account { locked_until = some (110 + 900); failed_login_count = 0 }))
    × (login text_eq right_code plain plain plain settings after_two with_code "s" "t" 500
        ≡ (after_two, err locked))
lockout_holds_example =
    lockout_holds text_eq right_code plain plain plain settings start "a@b" account (guess 100 ∷ [])
      (guess 110) with_code "s" "t" 500 refl
      (record { address = refl; password = refl; unlocked = refl }, tt)
      (record { address = refl; password = refl; unlocked = refl }) refl refl (omega arith)
