-- ===== src/Login.antt =====
-- backend/app/api/v1/auth.py: login, with the account's lock-out, and backend/app/services/mfa_recovery.py.
-- Parameters: bcrypt (`verify_password`), pyotp (`verify_totp`), the hash of a token, and `str.lower`
-- and `str.strip`. The session does not flush on its own (`autoflush=False`), so the recovery code that
-- `consume` takes off the loaded user is lost when that user is expired. Audit rows and cookies are
-- left out, and so is the comparison with a dummy hash for an unknown address, whose result is not used.
pub mod Factors
pub mod Lockout
pub mod Tests
use cerradura_magnetica.Prelude.{
  ℕ, ◌+◌, Bool, true, false, ◌&&◌, not, String, text_eq, List, [], ◌∷◌, Option, none, some, Result,
  ok, err, ltb, leb, ◌==◌, if◌then◌else◌, holds, select, find_row, update_rows,
}
use cerradura_magnetica.Models.Auth.{User}
use cerradura_magnetica.Sessions.{Db, AccessClaims, organization_active, purge_expired}
use cerradura_magnetica.Sessions.Rotation.{issue_tokens}

-- The columns of `User` that login reads and writes, beside those of Models.
pub record Account : Type 0 where
  pub user : User
  pub email : String
  pub hashed_password : String
  pub failed_login_count : ℕ
  pub locked_until : Option ℕ
  pub mfa_enabled : Bool
  pub mfa_secret : Option String
  pub mfa_recovery_hashes : List String

pub record LoginRequest : Type 0 where
  pub email : String
  pub password : String
  pub mfa_code : Option String
  pub recovery_code : Option String

pub data LoginError : Type 0 where
  locked incorrect disabled suspended mfa_required invalid_mfa : LoginError

pub record State : Type 0 where
  pub accounts : List Account
  pub db : Db

-- The settings `login_max_attempts` and `login_lockout_minutes`, the latter in seconds, the session
-- lifetime, and what is drawn for a new session.
pub record Settings : Type 0 where
  pub max_attempts : ℕ
  pub lockout : ℕ
  pub lifetime : ℕ

-- A string that is missing or empty is false.
abbrev pub given : Option String → Bool
given o = holds o (λ s. not (text_eq s ""))

-- `_register_failed_login` on the account's row.
unfoldable pub register_failed_login : Settings → Account → ℕ → Account
register_failed_login settings a now =
    if leb settings.max_attempts (a.failed_login_count + 1)
    then record a { locked_until = some (now + settings.lockout); failed_login_count = 0 }
    else record a { failed_login_count = a.failed_login_count + 1 }

abbrev pub is_locked : Account → ℕ → Bool
is_locked a now = holds a.locked_until (λ t. ltb now t)

abbrev pub in_list : String → List String → Bool
in_list h [] = false
in_list h (x ∷ xs) = if text_eq x h then true else in_list h xs

abbrev pub cleared : Account → Account
cleared a = record a { failed_login_count = 0; locked_until = none }

abbrev pub store : List Account → Account → List Account
store accounts a = update_rows (λ x. x.user.id == a.user.id) (λ _. a) accounts

module _ (verify_password verify_totp : String → String → Bool)
    (hash_token lower strip : String → String) where
  -- backend/app/core/totp.py
  unfoldable pub verify_code : Option String → Option String → Bool
  verify_code secret code =
      holds secret
        (λ s. holds code (λ c. not (text_eq s "") && not (text_eq c "") && verify_totp s (strip c)))

  unfoldable pub consume : Account → Option String → Account × Bool
  consume a presented = elim presented [
    | none ↦ (a, false)
    | some code ↦
        let target = hash_token (strip code) in
        if text_eq code ""
        then (a, false)
        else if in_list target a.mfa_recovery_hashes
        then (
          record a {
            mfa_recovery_hashes = select (λ h. not (text_eq h target)) a.mfa_recovery_hashes;
          },
          true,
        )
        else (a, false)
  ]

  -- The second factor: the row as it is left, and whether login goes on.
  unfoldable pub second_factor :
      Settings → Account → LoginRequest → ℕ → Account × Result LoginError (Unit {0})
  unfolding verify_code consume register_failed_login
  second_factor settings a body now =
      if not a.mfa_enabled
      then (a, ok tt)
      else if not (given body.mfa_code) && not (given body.recovery_code)
      then (a, err mfa_required)
      else let code_ok = given body.mfa_code && verify_code a.mfa_secret body.mfa_code in
        let recovery_ok =
          not code_ok && given body.recovery_code && (consume a body.recovery_code).1 in
        let counted =
          if not code_ok && not recovery_ok then register_failed_login settings a now else a in
        if not (verify_code a.mfa_secret body.mfa_code)
        then (register_failed_login settings counted now, err invalid_mfa)
        else (counted, ok tt)

  -- The second factor and, where it is met, the new session.
  unfoldable pub finish_login :
      Settings
      → State
      → Account
      → LoginRequest
      → String
      → String
      → ℕ
      → State × Result LoginError (AccessClaims × String)
  unfolding purge_expired issue_tokens
  finish_login settings st a body session_id refresh now =
      elim (second_factor settings a body now).1 [
        | err e ↦ (
          record st { accounts = store st.accounts (second_factor settings a body now).0 },
          err e,
        )
        | ok _ ↦
            let (db, (access, token, _)) =
              issue_tokens hash_token (purge_expired st.db now).0 a.user session_id refresh
                settings.lifetime now in
            (
              record {
                accounts = store st.accounts (cleared (second_factor settings a body now).0);
                db = db;
              },
              ok (access, token),
            )
      ]

  -- From an account whose password was right.
  unfoldable pub login_known :
      Settings
      → State
      → Account
      → LoginRequest
      → String
      → String
      → ℕ
      → State × Result LoginError (AccessClaims × String)
  unfolding organization_active
  login_known settings st a body session_id refresh now =
      if not a.user.is_active
      then (st, err disabled)
      else if not (organization_active st.db a.user)
      then (st, err suspended)
      else finish_login settings st a body session_id refresh now

  unfoldable pub login :
      Settings
      → State
      → LoginRequest
      → String
      → String
      → ℕ
      → State × Result LoginError (AccessClaims × String)
  unfolding register_failed_login
  login settings st body session_id refresh now =
      elim (find_row (λ (a : Account). text_eq a.email (lower body.email)) st.accounts) [
        | none ↦ (st, err incorrect)
        | some a ↦
            if is_locked a now
            then (st, err locked)
            else if not (verify_password body.password a.hashed_password)
            then (
              record st { accounts = store st.accounts (register_failed_login settings a now) },
              err incorrect,
            )
            else login_known settings st a body session_id refresh now
      ]
