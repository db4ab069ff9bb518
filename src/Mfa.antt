-- ===== src/Mfa.antt =====
-- backend/app/api/v1/auth.py: the endpoints of multi-factor authentication, and `generate` of
-- backend/app/services/mfa_recovery.py. The signed-in user is the row that `get_current_user` loaded; what
-- `secrets.token_hex` and `pyotp.random_base32` draw are arguments. Audit rows, the provisioning URI and
-- the wording of the answers are left out.
pub mod Kept
pub mod Recovery
pub mod Tests
use cerradura_magnetica.Prelude.{
  ℕ, Bool, true, false, ◌||◌, not, String, List, [], ◌∷◌, map, none, some, Result, ok, err, ◌==◌,
  if◌then◌else◌, find_row,
}
use cerradura_magnetica.Login.{Account, given, store, verify_code}

pub data MfaError : Type 0 where
  already_enabled no_setup invalid_code incorrect_password : MfaError

-- What an endpoint hands out: a new secret, recovery codes in the clear, or a message.
pub data MfaReply : Type 0 where
  secret_reply : String → MfaReply
  codes_reply : List String → MfaReply
  done_reply : MfaReply

pub data MfaRequest : Type 0 where
  setup : (secret : String) → MfaRequest
  enable : (code : String) (drawn : List String) → MfaRequest
  regenerate : (password code : String) (drawn : List String) → MfaRequest
  disable : (password code : String) → MfaRequest

module _ (hash_token : String → String) where
  -- The codes in the clear, and the hashes that are kept.
  unfoldable pub generate : List String → List String × List String
  generate codes = (codes, map hash_token codes)

unfoldable pub mfa_setup : Account → String → Account × Result MfaError MfaReply
mfa_setup user secret =
    if user.mfa_enabled
    then (user, err already_enabled)
    else (record user { mfa_secret = some secret; mfa_enabled = false }, ok (secret_reply secret))

module _ (verify_password verify_totp : String → String → Bool)
    (hash_token lower strip : String → String) where
  unfoldable pub mfa_enable : Account → String → List String → Account × Result MfaError MfaReply
  unfolding generate
  mfa_enable user code drawn =
      if not (given user.mfa_secret)
      then (user, err no_setup)
      else if not (
          verify_code verify_password verify_totp hash_token lower strip user.mfa_secret
            (some code))
      then (user, err invalid_code)
      else let (codes, hashes) = generate hash_token drawn in
        (record user { mfa_enabled = true; mfa_recovery_hashes = hashes }, ok (codes_reply codes))

  unfoldable pub mfa_regenerate_recovery_codes :
      Account → String → String → List String → Account × Result MfaError MfaReply
  unfolding generate
  mfa_regenerate_recovery_codes user password code drawn =
      if not (verify_password password user.hashed_password)
      then (user, err incorrect_password)
      else if not user.mfa_enabled
          || not (
              verify_code verify_password verify_totp hash_token lower strip user.mfa_secret
                (some code))
      then (user, err invalid_code)
      else let (codes, hashes) = generate hash_token drawn in
        (record user { mfa_recovery_hashes = hashes }, ok (codes_reply codes))

  unfoldable pub mfa_disable : Account → String → String → Account × Result MfaError MfaReply
  mfa_disable user password code =
      if not (verify_password password user.hashed_password)
      then (user, err incorrect_password)
      else if not user.mfa_enabled
          || not (
              verify_code verify_password verify_totp hash_token lower strip user.mfa_secret
                (some code))
      then (user, err invalid_code)
      else (
        record user { mfa_enabled = false; mfa_secret = none; mfa_recovery_hashes = [] },
        ok done_reply,
      )

  -- The endpoint that a request is for.
  unfoldable pub answer : Account → MfaRequest → Account × Result MfaError MfaReply
  unfolding mfa_setup mfa_enable mfa_regenerate_recovery_codes mfa_disable
  answer user (setup secret) = mfa_setup user secret
  answer user (enable code drawn) = mfa_enable user code drawn
  answer user (regenerate password code drawn) =
      mfa_regenerate_recovery_codes user password code drawn
  answer user (disable password code) = mfa_disable user password code

  -- A request of the user with the identifier: the row is loaded, and the commit writes it back. One
  -- that names no user is refused before the endpoint.
  unfoldable pub serve : List Account → ℕ × MfaRequest → List Account
  unfolding answer
  serve accounts (id, request) = elim (find_row (λ (a : Account). a.user.id == id) accounts) [
    | none ↦ accounts
    | some user ↦ store accounts (answer user request).0
  ]

  unfoldable pub serve_all : List Account → List (ℕ × MfaRequest) → List Account
  serve_all accounts [] = accounts
  serve_all accounts (r ∷ rest) = serve_all (serve accounts r) rest
