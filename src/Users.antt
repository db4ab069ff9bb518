-- ===== src/Users.antt =====
-- backend/app/api/v1/users.py, and the update of backend/app/api/v1/organizations.py: who may change which
-- account, and what a change does to the sessions. The table of users stands twice in the state, as the
-- rows that login reads and as those that the sessions read, and is written in both. Names, plans and
-- contact addresses are left out, and so are a field sent as null, which no column takes, and the listings.
pub mod Keys
pub mod Scope
pub mod Suspension
pub mod Tests
use cerradura_magnetica.Prelude.{
  ℕ, Bool, true, false, ◌&&◌, ◌||◌, not, String, text_eq, List, [], ◌∷◌, ◌++◌, Option, none, some,
  Result, ok, err, ◌==◌, if◌then◌else◌, holds, is_none, select, find_row, update_rows,
}
use cerradura_magnetica.Models.Auth.{Organization, User, UserRole, super_admin}
use cerradura_magnetica.Sessions.{Db, revoke_user_sessions, revoke_org_sessions}
use cerradura_magnetica.Guards.{role_eq}
use cerradura_magnetica.Login as Login
use cerradura_magnetica.Login.{State, store}
use cerradura_magnetica.Monitor.Bus.{revoke_org}
use cerradura_magnetica.Account.{
  Worker, audited, revoked_details, user_resource, organization_resource, with_db,
  close_user_sockets,
}

pub data UserError : Type 0 where
  user_not_found email_registered super_admin_only organization_not_found own_account : UserError

pub record UserCreate : Type 0 where
  pub email : String
  pub password : String
  pub role : UserRole
  pub organization_id : Option ℕ

-- The fields that were set.
pub record UserUpdate : Type 0 where
  pub password : Option String
  pub role : Option UserRole
  pub is_active : Option Bool

abbrev pub is_super : User → Bool
is_super u = role_eq u.role super_admin

abbrev pub belongs : User → ℕ → Bool
belongs u org_id = holds u.organization_id (λ o. o == org_id)

abbrev pub get_account : List Login.Account → ℕ → Option Login.Account
get_account accounts id = find_row (λ (a : Login.Account). a.user.id == id) accounts

-- `_get_scoped_user`
unfoldable pub get_scoped_user : Worker → ℕ → User → ℕ → Result UserError Login.Account
get_scoped_user w user_id actor org_id = elim (get_account w.state.accounts user_id) [
  | none ↦ err user_not_found
  | some target ↦
      if not (is_super actor) && (not (belongs target.user org_id) || is_super target.user)
      then err user_not_found
      else ok target
]

abbrev pub with_state : Worker → State → Worker
with_state w state = record w { state = state }

-- A row of the users is written, or a new one is added.
abbrev pub store_user : Worker → Login.Account → Worker
store_user w a = with_state w (record {
  accounts = store w.state.accounts a;
  db = record w.state.db {
    users = update_rows (λ (u : User). u.id == a.user.id) (λ _. a.user) w.state.db.users;
  };
})

abbrev pub add_user : Worker → Login.Account → Worker
add_user w a = with_state w (record {
  accounts = w.state.accounts ++ a ∷ [];
  db = record w.state.db { users = w.state.db.users ++ a.user ∷ [] };
})

-- The user's row goes, and with it, by the foreign keys, the sessions and their refresh tokens.
abbrev pub owned_by : Db → ℕ → ℕ → Bool
owned_by db user_id session =
    holds (find_row (λ s. s.id == session) db.sessions) (λ s. s.user_id == user_id)

abbrev pub remove_user : Worker → ℕ → Worker
remove_user w id = with_state w (record {
  accounts = select (λ (a : Login.Account). not (a.user.id == id)) w.state.accounts;
  db = record w.state.db {
    users = select (λ (u : User). not (u.id == id)) w.state.db.users;
    sessions = select (λ s. not (s.user_id == id)) w.state.db.sessions;
    tokens = select (λ t. not (owned_by w.state.db id t.auth_session_id)) w.state.db.tokens;
  };
})

-- The columns' defaults.
abbrev pub new_account : ℕ → String → String → UserRole → Option ℕ → Login.Account
new_account id email hashed_password role organization_id = record {
  user = record { id = id; organization_id = organization_id; role = role; is_active = true };
  email = email;
  hashed_password = hashed_password;
  failed_login_count = 0;
  locked_until = none;
  mfa_enabled = false;
  mfa_secret = none;
  mfa_recovery_hashes = [];
}

-- The organization of the new user.
abbrev pub target_org : User → UserCreate → ℕ → Option ℕ
target_org actor body org_id =
    if role_eq body.role super_admin
    then body.organization_id
    else if is_super actor && not (is_none body.organization_id)
    then body.organization_id
    else some org_id

abbrev pub org_exists : Db → Option ℕ → Bool
org_exists db none = true
org_exists db (some id) =
    not (is_none (find_row (λ (o : Organization). o.id == id) db.organizations))

abbrev pub or_kept : {A : Type 0} → Option A → A → A
or_kept none old = old
or_kept (some new) old = new

abbrev pub invalidates : UserUpdate → Bool
invalidates body =
    holds body.is_active not || not (is_none body.password) || not (is_none body.role)

module _ (lower hash_password : String → String) where
  -- `id` is the identifier that the table gives.
  unfoldable pub create_user :
      Worker → UserCreate → ℕ → User → ℕ → Worker × Result UserError Login.Account
  create_user w body org_id actor id =
      let user =
        new_account id (lower body.email) (hash_password body.password) body.role
          (target_org actor body org_id) in
      if not (
        is_none
          (find_row (λ (a : Login.Account). text_eq a.email (lower body.email)) w.state.accounts))
      then (w, err email_registered)
      else if role_eq body.role super_admin && not (is_super actor)
      then (w, err super_admin_only)
      else if not (org_exists w.state.db (target_org actor body org_id))
      then (w, err organization_not_found)
      else (
        audited (add_user w user) (some actor) "create" (user_resource id)
            (target_org actor body org_id) none,
        ok user,
      )

  -- The row with the fields that were set.
  abbrev pub with_fields : Login.Account → UserUpdate → Login.Account
  with_fields a body = record a {
    user = record a.user {
      role = or_kept body.role a.user.role;
      is_active = or_kept body.is_active a.user.is_active;
    };
    hashed_password = elim body.password [
      | none ↦ a.hashed_password
      | some new ↦ hash_password new
    ];
  }

  -- The sessions of a row that was written.
  unfoldable pub invalidate : Worker → Login.Account → User → ℕ → Worker
  unfolding revoke_user_sessions
  invalidate w a actor now =
      audited (with_db w (revoke_user_sessions w.state.db a.user.id "admin_update" now).0)
        (some actor) "revoke_sessions" (user_resource a.user.id) a.user.organization_id
        (some (
          revoked_details (revoke_user_sessions w.state.db a.user.id "admin_update" now).1
            "admin_update"))

  module _ (enabled reachable : Bool) where
    unfoldable pub write_update :
        Worker → Login.Account → UserUpdate → User → ℕ → Worker × Result UserError Login.Account
    unfolding invalidate
    write_update w target body actor now =
        let a = with_fields target body in
        let stored = store_user w a in
        let done = λ (v : Worker).
          audited v (some actor) "update" (user_resource a.user.id) a.user.organization_id none in
        if invalidates body
        then (
          close_user_sockets enabled reachable (done (invalidate stored a actor now)) a.user.id,
          ok a,
        )
        else (done stored, ok a)

    unfoldable pub update_user :
        Worker → ℕ → UserUpdate → ℕ → User → ℕ → Worker × Result UserError Login.Account
    unfolding get_scoped_user write_update
    update_user w user_id body org_id actor now = elim (get_scoped_user w user_id actor org_id) [
      | err e ↦ (w, err e)
      | ok target ↦
          if holds body.role (λ r. role_eq r super_admin) && not (is_super actor)
          then (w, err super_admin_only)
          else write_update w target body actor now
    ]

unfoldable pub delete_user : Worker → ℕ → ℕ → User → Worker × Result UserError (Unit {0})
unfolding get_scoped_user
delete_user w user_id org_id actor = elim (get_scoped_user w user_id actor org_id) [
  | err e ↦ (w, err e)
  | ok target ↦ if target.user.id == actor.id then (w, err own_account) else (
    remove_user
        (audited w (some actor) "delete" (user_resource target.user.id) target.user.organization_id
          none)
        target.user.id,
    ok tt,
  )
]

-- backend/app/api/v1/organizations.py, `is_active` where it was set. Only a super admin gets here.
module _ (enabled reachable : Bool) where
  abbrev pub close_org_sockets : Worker → ℕ → Worker
  close_org_sockets w org_id =
      let (left, channel, _) = revoke_org enabled reachable w.manager w.channel org_id in
      record w { manager = left; channel = channel }

  unfoldable pub update_organization :
      Worker → ℕ → Option Bool → User → ℕ → Worker × Result UserError Organization
  unfolding revoke_org_sessions
  update_organization w org_id is_active actor now =
      elim (find_row (λ (o : Organization). o.id == org_id) w.state.db.organizations) [
        | none ↦ (w, err organization_not_found)
        | some org ↦
            let changed : Organization = elim is_active [
              | none ↦ org
              | some value ↦ record org { is_active = value }
            ] in
            let db = record w.state.db {
              organizations =
                  update_rows (λ (o : Organization). o.id == org_id) (λ _. changed)
                    w.state.db.organizations;
            } in
            let done = λ (v : Worker).
              audited v (some actor) "update" (organization_resource org_id) (some org_id) none in
            if holds is_active not
            then (
              close_org_sockets
                  (done (
                    audited (with_db w (revoke_org_sessions db org_id "org_suspended" now).0)
                      (some actor) "revoke_sessions" (organization_resource org_id) (some org_id)
                      (some (
                        revoked_details (revoke_org_sessions db org_id "org_suspended" now).1
                          "org_suspended"))))
                  org_id,
              ok changed,
            )
            else (done (with_db w db), ok changed)
      ]
