-- ===== src/Guards.antt =====
-- backend/app/core/deps.py: who a request is from, which roles it needs, and the tenant it works on.
-- `decode_token` of PyJWT is a parameter, which gives `none` for a token that it refuses.
pub mod Tenant
pub mod Tests
use cerradura_magnetica.Prelude.{
  ℕ, Bool, true, false, ◌||◌, not, String, text_eq, List, [], ◌∷◌, Option, none, some, Result, ok,
  err, ◌==◌, if◌then◌else◌, holds, is_none,
}
use cerradura_magnetica.Models.Auth.{User, UserRole, super_admin, admin, operator, viewer}
use cerradura_magnetica.Sessions.{Db, get_user, get_active_session, organization_active}

pub data AuthError : Type 0 where
  not_authenticated invalid_token session_inactive user_inactive suspended : AuthError
  insufficient_permissions organization_required no_organization other_organization : AuthError

-- What the code reads of a decoded access token.
pub record TokenPayload : Type 0 where
  pub sid : Option String
  pub sub : ℕ

abbrev pub role_eq : UserRole → UserRole → Bool
role_eq super_admin super_admin = true
role_eq admin admin = true
role_eq operator operator = true
role_eq viewer viewer = true
role_eq _ _ = false

abbrev pub role_in : UserRole → List UserRole → Bool
role_in r [] = false
role_in r (x ∷ xs) = role_eq r x || role_in r xs

unfoldable pub require_roles : List UserRole → User → Result AuthError User
require_roles roles user =
    if role_eq user.role super_admin || role_in user.role roles
    then ok user
    else err insufficient_permissions

unfoldable pub get_org_id : User → Option ℕ → Result AuthError ℕ
get_org_id user asked =
    if role_eq user.role super_admin
    then (elim asked [
      | some id ↦ ok id
      | none ↦ elim user.organization_id [ some own ↦ ok own | none ↦ err organization_required ]
    ])
    else elim user.organization_id [
      | none ↦ err no_organization
      | some own ↦ if holds asked (λ id. not (id == own)) then err other_organization else ok own
    ]

-- The bearer token wins over the cookie.
abbrev pub presented_token : Option String → Option String → Option String
presented_token none cookie = cookie
presented_token (some bearer) cookie = some bearer

abbrev pub missing : Option String → Bool
missing none = true
missing (some s) = text_eq s ""

-- From the user that the token names.
unfoldable pub check_user : Db → Option User → Result AuthError User
unfolding organization_active
check_user db none = err user_inactive
check_user db (some user) =
    if not user.is_active
    then err user_inactive
    else if not (organization_active db user)
    then err suspended
    else ok user

-- From the decoded token.
unfoldable pub check_session : Db → TokenPayload → ℕ → Result AuthError User
unfolding get_active_session check_user
check_session db payload now =
    if missing payload.sid
      || holds payload.sid (λ sid. is_none (get_active_session db sid (some payload.sub) now))
    then err session_inactive
    else check_user db (get_user db payload.sub)

module _ (decode_token : String → Option TokenPayload) where
  unfoldable pub get_current_user : Db → Option String → Option String → ℕ → Result AuthError User
  unfolding check_session
  get_current_user db bearer cookie now = elim (presented_token bearer cookie) [
    | none ↦ err not_authenticated
    | some token ↦ if text_eq token "" then err not_authenticated else elim (decode_token token) [
      | none ↦ err invalid_token
      | some payload ↦ check_session db payload now
    ]
  ]
