-- ===== src/Account/Tests.antt =====
-- One worker with a session of user 7 and its socket. Hashes change nothing, the password check is
-- equality, and the tokens that decode name the session "s".
use cerradura_magnetica.Prelude.{
  ◌≡◌, refl, true, false, String, text_eq, text_eq_refl, [], ◌∷◌, Option, none, some, ok, err,
  arith, if◌then◌else◌, ℕ, is_none,
}
use cerradura_magnetica.Models.Auth.{User, AuthSession, AuthRefreshToken, operator}
use cerradura_magnetica.Sessions.{
  SessionError, organization_active, claims, get_session, get_active_session,
}
use cerradura_magnetica.Sessions.Rotation.{rotate_refresh, rotate_session, rotate_token, spend}
use cerradura_magnetica.Guards.{TokenPayload}
use cerradura_magnetica.Login as Login
use cerradura_magnetica.Monitor.{Manager}
use cerradura_magnetica.Account.{
  Worker, cleared, renewed, rejected, refresh_session, refresh, change_password, logout,
}
use cerradura_magnetica.Account.SignOut.{IsSignedOut, change_password-IsSignedOut, logout_signs_out}
use cerradura_magnetica.Account.Replay.{Carries, IsShutDown, refresh_replay}
use cerradura_magnetica.Monitor.Calls.{AllSignalled}

abbrev same : String → String
same s = s

abbrev payload : TokenPayload
payload = record { sid = some "s"; sub = 7 }

abbrev decode : String → Option TokenPayload
decode token = if text_eq token "bad" then none else some payload

abbrev user : User
user = record { id = 7; organization_id = none; role = operator; is_active = true }

abbrev account : Login.Account
account = record {
  user = user;
  email = "a@b";
  hashed_password = "pw";
  failed_login_count = 0;
  locked_until = none;
  mfa_enabled = false;
  mfa_secret = none;
  mfa_recovery_hashes = [];
}

abbrev session : AuthSession
session = record {
  id = 1;
  session_id = "s";
  user_id = 7;
  issued_at = 100;
  expires_at = 900;
  last_used_at = none;
  revoked_at = none;
  revoked_reason = none;
}

abbrev token : AuthRefreshToken
token = record {
  id = 1;
  auth_session_id = 1;
  token_hash = "t0";
  generation = 0;
  issued_at = 100;
  expires_at = 900;
  used_at = none;
  revoked_at = none;
  replaced_by_id = none;
}

abbrev sockets : Manager
sockets = record {
  by_org =
      (1, record { key = 0; org_id = 1; user_id = 7; session_id = "s"; close_event = false } ∷ [])
      ∷ [];
  next_key = 1;
}

abbrev worker : Worker
worker = record {
  state = record {
    accounts = account ∷ [];
    db = record {
      sessions = session ∷ [];
      tokens = token ∷ [];
      users = user ∷ [];
      organizations = [];
      next_session = 2;
      next_token = 2;
    };
  };
  audit = [];
  manager = sockets;
  channel = [];
}

change_password-IsSignedOut_example :
    let r = change_password true true text_eq same worker account "pw" "new" 150 in
    (r.1.1 ≡ ok tt) × IsSignedOut true true text_eq same same r.0 7 "new"
change_password-IsSignedOut_example =
    change_password-IsSignedOut true true text_eq same same worker account "pw" "new" 150
      (λ p. text_eq_refl p) refl refl

logout_signs_out_example :
    let r = logout true true same decode worker (some "a") none 150 in
    (r.1 ≡ (cleared, ok tt))
    × ((u : Option ℕ) (t : ℕ) → get_active_session r.0.state.db "s" u t ≡ none)
    × ((s : AuthSession)
        → get_session worker.state.db "s" ≡ some s
        → is_none s.revoked_at ≡ true
        → AllSignalled (λ c. text_eq c.session_id "s") r.0.manager)
    × (logout true true same decode r.0 (some "a") none 160 ≡ (r.0, (cleared, ok tt)))
logout_signs_out_example =
    logout_signs_out true true same decode worker (some "a") none 150 160 "a" "s" payload refl refl
      refl refl refl

abbrev refreshed : Worker
refreshed = (refresh true true same decode worker.state.db worker (some "t0") none "t1" 150 151).0

first_refresh :
    refresh true true same decode worker.state.db worker (some "t0") none "t1" 150 151
    ≡ (refreshed, (renewed, ok (claims user "s", "t1")))
unfolding refresh refresh_session rotate_refresh rotate_session rotate_token spend
    organization_active
first_refresh = refl

carried : Carries decode (some "t0") none "t0" payload "s"
carried = record { shown = refl; filled = refl; decoded = refl; bound = refl; named = refl }

refresh_replay_example :
    let r =
      refresh true true same decode refreshed.state.db refreshed (some "t0") none "t2" 200 201 in
    ((e : SessionError) × (r.1 ≡ (cleared, err (rejected e))))
    × IsShutDown true true same decode refreshed r.0 "s" 1
refresh_replay_example =
    refresh_replay true true same decode worker refreshed (some "t0") none "t0" payload "s" "t1"
      "t2" 150 151 200 201 (claims user "s", "t1") session carried refl first_refresh (omega arith)
