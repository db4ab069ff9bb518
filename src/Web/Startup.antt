-- ===== src/Web/Startup.antt =====
-- backend/app/core/config.py: the settings that a production deployment must not have, and the validator
-- that refuses them. `str.lower`, `str.strip` and the length of a string are parameters; the messages
-- are the cases of `Issue`.
use cerradura_magnetica.Prelude.{
  ℕ, Bool, ◌&&◌, ◌||◌, not, String, text_eq, List, [], ◌∷◌, ◌++◌, Result, ok, err, ltb,
  if◌then◌else◌,
}

abbrev pub default_secret_key : String
default_secret_key = "change-me-in-production"

abbrev pub default_superuser_password : String
default_superuser_password = "admin1234"

abbrev pub min_secret_key_length : ℕ
min_secret_key_length = 32

-- The settings that the checks read.
pub record Settings : Type 0 where
  pub environment : String
  pub debug : Bool
  pub secret_key : String
  pub first_superuser_password : String
  pub cookie_secure : Bool
  pub cookie_samesite : String
  pub forwarded_allow_ips : String

pub data Issue : Type 0 where
  weak_secret_key default_password debug_on insecure_cookies : Issue
  samesite_none forwarded_from_anyone : Issue

abbrev pub issue_if : Bool → Issue → List Issue
issue_if b issue = if b then issue ∷ [] else []

module _ (lower strip : String → String) (len : String → ℕ) where
  unfoldable pub production_issues : Settings → List Issue
  production_issues s =
      issue_if
        (text_eq s.secret_key default_secret_key || ltb (len s.secret_key) min_secret_key_length)
        weak_secret_key
      ++ issue_if (text_eq s.first_superuser_password default_superuser_password) default_password
      ++ issue_if s.debug debug_on
      ++ issue_if (not s.cookie_secure) insecure_cookies
      ++ issue_if (text_eq (lower s.cookie_samesite) "none" && not s.cookie_secure) samesite_none
      ++ issue_if (text_eq (strip s.forwarded_allow_ips) "*") forwarded_from_anyone

  unfoldable pub is_production : Settings → Bool
  is_production s = text_eq (lower s.environment) "production"

  -- `_fail_fast_on_unsafe_production`: the settings, or the problems that are raised.
  unfoldable pub fail_fast : Settings → Result (List Issue) Settings
  unfolding production_issues is_production
  fail_fast s =
      if is_production s
      then (elim (production_issues s) [ [] ↦ ok s | issue ∷ issues ↦ err (issue ∷ issues) ])
      else ok s
