-- ===== src/Web/Tests.antt =====
-- Requests at the CSRF check, and two sets of settings at the start of the server.
use cerradura_magnetica.Prelude.{
  ℕ, ◌≡◌, refl, Bool, true, false, String, not, text_eq, [], ◌∷◌, Option, none, some, ok, err,
  if◌then◌else◌,
}
use cerradura_magnetica.Models.Auth.{User, operator}
use cerradura_magnetica.Sessions.{Db, get_active_session, organization_active}
use cerradura_magnetica.Guards.{TokenPayload, get_current_user}
use cerradura_magnetica.Web.Csrf.{Request, is_cookie_authenticated, csrf_dispatch, csrf_guards}
use cerradura_magnetica.Web.Startup.{
  Settings, debug_on, insecure_cookies, samesite_none, production_issues, is_production, fail_fast,
}

abbrev user : User
user = record { id = 7; organization_id = some 1; role = operator; is_active = true }

abbrev db : Db
db = record {
  sessions =
      record {
        id = 1;
        session_id = "s";
        user_id = 7;
        issued_at = 0;
        expires_at = 900;
        last_used_at = none;
        revoked_at = none;
        revoked_reason = none;
      }
      ∷ [];
  tokens = [];
  users = user ∷ [];
  organizations = record { id = 1; is_active = true } ∷ [];
  next_session = 2;
  next_token = 1;
}

abbrev decode : String → Option TokenPayload
decode token = if text_eq token "t" then some (record { sid = some "s"; sub = 7 }) else none

-- A browser's request to open a door.
abbrev request : Option String → Request
request header = record {
  method = "POST";
  path = "/api/v1/doors/1/open";
  authorization = none;
  bearer = none;
  csrf_header = header;
  access_cookie = some "t";
  refresh_cookie = none;
  csrf_cookie = some "c";
}

forged : (csrf_dispatch (request none) ≡ false) × (csrf_dispatch (request (some "x")) ≡ false)
unfolding csrf_dispatch is_cookie_authenticated
forged = (refl, refl)

lets_on : csrf_dispatch (request (some "c")) ≡ true
unfolding csrf_dispatch is_cookie_authenticated
lets_on = refl

is_the_user : get_current_user decode db none (some "t") 100 ≡ ok user
unfolding get_current_user get_active_session organization_active
is_the_user = refl

csrf_guards_example :
    (t : String) × (text_eq t "" ≡ false) × (some "c" ≡ some t) × (some "c" ≡ some t)
csrf_guards_example =
    csrf_guards decode db (request (some "c")) 100 user refl refl refl refl lets_on is_the_user

abbrev length_of : String → ℕ
length_of s = if text_eq s "the key of this deployment" then 40 else 8

abbrev settings : Bool → Settings
settings debug = record {
  environment = "production";
  debug = debug;
  secret_key = "the key of this deployment";
  first_superuser_password = "its own";
  cookie_secure = not debug;
  cookie_samesite = "none";
  forwarded_allow_ips = "10.0.0.1";
}

demo_refused :
    fail_fast (λ s. s) (λ s. s) length_of (settings true)
    ≡ err (debug_on ∷ insecure_cookies ∷ samesite_none ∷ [])
unfolding fail_fast is_production production_issues
demo_refused = refl

own_settings_start : fail_fast (λ s. s) (λ s. s) length_of (settings false) ≡ ok (settings false)
unfolding fail_fast is_production production_issues
own_settings_start = refl
