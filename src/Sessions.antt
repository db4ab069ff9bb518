-- ===== src/Sessions.antt =====
-- backend/app/services/sessions.py: sessions, their revocation, look-ups and purge. An access token is its
-- claims. The issue and rotation of refresh tokens are in Sessions/Rotation.
pub mod Rotation
pub mod Revocation
pub mod Death
pub mod Reuse
pub mod SingleUse
pub mod Tests
use cerradura_magnetica.Prelude.{
  ℕ, ◌+◌, Bool, true, false, ◌&&◌, ◌||◌, not, String, text_eq, List, [], ◌∷◌, Option, none, some,
  ltb, ◌==◌, if◌then◌else◌, holds, is_none, length, select, find_row, update_rows, row_count,
}
use cerradura_magnetica.Models.Auth.{Organization, User, UserRole, AuthSession, AuthRefreshToken}

pub record SessionError : Type 0 where
  pub message : String
  pub reuse : Bool
  pub session_id : Option String
  pub organization_id : Option ℕ

pub record Db : Type 0 where
  pub sessions : List AuthSession
  pub tokens : List AuthRefreshToken
  pub users : List User
  pub organizations : List Organization
  pub next_session : ℕ
  pub next_token : ℕ

pub record AccessClaims : Type 0 where
  pub sub : ℕ
  pub org : Option ℕ
  pub role : UserRole
  pub sid : String

abbrev pub plain_error : String → SessionError
plain_error message = record {
  message = message;
  reuse = false;
  session_id = none;
  organization_id = none;
}

-- `_now() > dt`
abbrev pub is_expired : ℕ → ℕ → Bool
is_expired dt now = ltb dt now

abbrev pub get_user : Db → ℕ → Option User
get_user db id = find_row (λ u. u.id == id) db.users

abbrev pub get_session : Db → String → Option AuthSession
get_session db session_id = find_row (λ s. text_eq s.session_id session_id) db.sessions

unfoldable pub organization_active : Db → User → Bool
organization_active db user = elim user.organization_id [
  | none ↦ true
  | some id ↦
      holds (find_row (λ (o : Organization). o.id == id) db.organizations) (λ o. o.is_active)
]

-- `_org_id`
unfoldable pub org_id : Db → ℕ → Option ℕ
org_id db user_id = elim (get_user db user_id) [ none ↦ none | some u ↦ u.organization_id ]

abbrev pub claims : User → String → AccessClaims
claims user session_id = record {
  sub = user.id;
  org = user.organization_id;
  role = user.role;
  sid = session_id;
}

abbrev pub first_token : ℕ → ℕ → String → ℕ → ℕ → AuthRefreshToken
first_token id session token_hash now expires_at = record {
  id = id;
  auth_session_id = session;
  token_hash = token_hash;
  generation = 0;
  issued_at = now;
  expires_at = expires_at;
  used_at = none;
  revoked_at = none;
  replaced_by_id = none;
}

abbrev pub new_session : ℕ → String → ℕ → ℕ → ℕ → AuthSession
new_session id session_id user_id now expires_at = record {
  id = id;
  session_id = session_id;
  user_id = user_id;
  issued_at = now;
  expires_at = expires_at;
  last_used_at = some now;
  revoked_at = none;
  revoked_reason = none;
}

abbrev pub revoke_row : String → ℕ → AuthSession → AuthSession
revoke_row reason now s = record s { revoked_at = some now; revoked_reason = some reason }

-- `revoke`: the session object alone; one that is revoked keeps its time and reason.
unfoldable pub revoke : AuthSession → String → ℕ → AuthSession
revoke s reason now = if is_none s.revoked_at then revoke_row reason now s else s

abbrev pub of_session : ℕ → AuthRefreshToken → Bool
of_session session t = t.auth_session_id == session && is_none t.revoked_at

abbrev pub revoke_token : ℕ → AuthRefreshToken → AuthRefreshToken
revoke_token now t = record t { revoked_at = some now }

-- `_revoke_family`, on the `session` object that the caller has loaded.
unfoldable pub revoke_family : Db → AuthSession → String → ℕ → Db
revoke_family db session reason now = record db {
  sessions =
      if is_none session.revoked_at
      then update_rows (λ s. s.id == session.id) (revoke_row reason now) db.sessions
      else db.sessions;
  tokens = update_rows (of_session session.id) (revoke_token now) db.tokens;
}

unfoldable pub revoke_session_id : Db → String → String → ℕ → Db × Option AuthSession
unfolding revoke_family
revoke_session_id db session_id reason now = elim (get_session db session_id) [
  | none ↦ (db, none)
  | some session ↦
      if is_none session.revoked_at
      then (revoke_family db session reason now, some (revoke_row reason now session))
      else (db, none)
]

-- The loop over the sessions that were found.
unfoldable pub revoke_each : Db → List AuthSession → String → ℕ → Db
revoke_each db [] reason now = db
revoke_each db (s ∷ ss) reason now = revoke_each (revoke_family db s reason now) ss reason now

unfoldable pub revoke_user_sessions : Db → ℕ → String → ℕ → Db × ℕ
unfolding revoke_each
revoke_user_sessions db user_id reason now =
    let found =
      select (λ (s : AuthSession). s.user_id == user_id && is_none s.revoked_at) db.sessions in
    (revoke_each db found reason now, length found)

abbrev pub user_in : List User → ℕ → Bool
user_in [] id = false
user_in (u ∷ us) id = u.id == id || user_in us id

abbrev pub in_org : ℕ → User → Bool
in_org organization_id u = holds u.organization_id (λ o. o == organization_id)

unfoldable pub revoke_org_sessions : Db → ℕ → String → ℕ → Db × ℕ
unfolding revoke_each
revoke_org_sessions db organization_id reason now =
    let users = select (in_org organization_id) db.users in
    let found =
      select (λ (s : AuthSession). user_in users s.user_id && is_none s.revoked_at) db.sessions in
    (revoke_each db found reason now, length found)

unfoldable pub get_active_session : Db → String → Option ℕ → ℕ → Option AuthSession
get_active_session db session_id user_id now = elim (get_session db session_id) [
  | none ↦ none
  | some s ↦
      if not (is_none s.revoked_at) || is_expired s.expires_at now
      then none
      else if holds user_id (λ u. not (s.user_id == u))
      then none
      else some s
]

unfoldable pub session_is_live : Db → String → Option ℕ → ℕ → Bool
unfolding organization_active
session_is_live db session_id user_id now = elim (get_active_session db session_id user_id now) [
  | none ↦ false
  | some s ↦ holds (get_user db s.user_id) (λ u. u.is_active && organization_active db u)
]

unfoldable pub purge_expired : Db → ℕ → Db × ℕ
purge_expired db now =
    let old_token = λ (t : AuthRefreshToken). ltb t.expires_at now in
    let old_session = λ (s : AuthSession). ltb s.expires_at now in
    (
      record db {
        tokens = select (λ t. not (old_token t)) db.tokens;
        sessions = select (λ s. not (old_session s)) db.sessions;
      },
      row_count old_token db.tokens + row_count old_session db.sessions,
    )
