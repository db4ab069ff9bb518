-- ===== src/Account.antt =====
-- backend/app/api/v1/auth.py: the refresh of tokens, the logout and the change of the password, as one
-- worker runs them. `decode_token`, the hashes and the password check are parameters, and so is whether
-- Redis is configured and takes a message. An audit row's address and request
-- are left out, and so are the answers' wording and the cookies' attributes.
pub mod SignOut
pub mod Replay
pub mod Tests
use cerradura_magnetica.Prelude.{
  ℕ, Bool, not, String, text_eq, List, [], ◌∷◌, ◌++◌, Option, none, some, Result, ok, err,
  if◌then◌else◌,
}
use cerradura_magnetica.Models.Auth.{User}
use cerradura_magnetica.Models.Gateway.{Json, word}
use cerradura_magnetica.Sessions.{
  Db, SessionError, AccessClaims, get_user, revoke_session_id, revoke_user_sessions,
}
use cerradura_magnetica.Sessions.Rotation.{rotate_refresh}
use cerradura_magnetica.Guards.{TokenPayload, presented_token}
use cerradura_magnetica.Login.{State, given, store}
use cerradura_magnetica.Login as Login
use cerradura_magnetica.Monitor.{Manager}
use cerradura_magnetica.Monitor.Bus.{Message, revoke_session, revoke_user}

-- What an audit row is about: a session, a user or an organization, by its identifier.
pub data Resource : Type 0 where
  session_resource : String → Resource
  user_resource organization_resource : ℕ → Resource

abbrev pub Details : Type 0
Details = List (String × Json)

pub record AuditLog : Type 0 where
  pub organization_id : Option ℕ
  pub user_id : Option ℕ
  pub action : String
  pub resource : Resource
  pub details : Option Details

-- backend/app/services/audit.py: the organization is the one given, or else the user's.
unfoldable pub record_audit :
    List AuditLog → Option User → String → Resource → Option ℕ → Option Details → List AuditLog
record_audit log user action resource organization_id details =
    log
    ++ record {
      organization_id = elim organization_id [
        | some id ↦ some id
        | none ↦ elim user [ none ↦ none | some u ↦ u.organization_id ]
      ];
      user_id = elim user [ none ↦ none | some u ↦ some u.id ];
      action = action;
      resource = resource;
      details = details;
    }
      ∷ []

-- A worker: the tables, the audit rows, its sockets and the channel.
pub record Worker : Type 0 where
  pub state : State
  pub audit : List AuditLog
  pub manager : Manager
  pub channel : List Message

-- What an answer does to the browser's cookies.
pub data Cookies : Type 0 where
  untouched cleared renewed : Cookies

pub data AccountError : Type 0 where
  no_refresh_token invalid_refresh_token unbound_token incorrect_password : AccountError
  rejected : SessionError → AccountError

abbrev pub Answer : Type 0 → Type 0
Answer A = Worker × (Cookies × Result AccountError A)

abbrev pub audited : Worker → Option User → String → Resource → Option ℕ → Option Details → Worker
audited w user action resource organization_id details = record w {
  audit = record_audit w.audit user action resource organization_id details;
}

-- How many sessions were revoked, and why
abbrev pub revoked_details : ℕ → String → Details
revoked_details count reason =
    ("revoked_sessions", Json.number count) ∷ ("reason", word reason) ∷ []

abbrev pub with_db : Worker → Db → Worker
with_db w db = record w { state = record w.state { db = db } }

module _ (enabled reachable : Bool) where
  -- The sockets of a session, and those of a user, are closed.
  abbrev pub close_sockets : Worker → String → Worker
  close_sockets w session_id =
      let (left, channel, _) = revoke_session enabled reachable w.manager w.channel session_id in
      record w { manager = left; channel = channel }

  abbrev pub close_user_sockets : Worker → ℕ → Worker
  close_user_sockets w user_id =
      let (left, channel, _) = revoke_user enabled reachable w.manager w.channel user_id in
      record w { manager = left; channel = channel }

  -- The audit row of a replay, and the sockets of the session that was refused.
  unfoldable pub tear_down : Worker → SessionError → Worker
  tear_down w e = elim e.session_id [
    | none ↦ w
    | some session_id ↦
        close_sockets
          (if e.reuse
            then audited w none "refresh_reuse_detected" (session_resource session_id)
                e.organization_id (some (("reason", word "refresh_reuse") ∷ []))
            else w)
          session_id
  ]

  module _ (hash_token : String → String) (decode_token : String → Option TokenPayload) where
    -- From the session that the token names. `seen` is the database as the SELECTs saw it.
    unfoldable pub refresh_session :
        Db
        → Worker
        → String
        → TokenPayload
        → String
        → String
        → ℕ
        → ℕ
        → Answer (AccessClaims × String)
    unfolding tear_down
    refresh_session seen w presented payload session_id fresh checked now =
        let (db, result) =
          rotate_refresh hash_token seen w.state.db session_id presented payload.sub fresh checked
            now in
        elim result [
          | ok tokens ↦ (with_db w db, (renewed, ok tokens))
          | err e ↦ (tear_down (with_db w db) e, (cleared, err (rejected e)))
        ]

    unfoldable pub refresh :
        Db
        → Worker
        → Option String
        → Option String
        → String
        → ℕ
        → ℕ
        → Answer (AccessClaims × String)
    unfolding refresh_session
    refresh seen w body cookie fresh checked now = elim (if given body then body else cookie) [
      | none ↦ (w, (untouched, err no_refresh_token))
      | some presented ↦
          if text_eq presented ""
          then (w, (untouched, err no_refresh_token))
          else (elim (decode_token presented) [
            | none ↦ (w, (untouched, err invalid_refresh_token))
            | some payload ↦ elim payload.sid [
              | none ↦ (w, (untouched, err unbound_token))
              | some session_id ↦
                  if text_eq session_id ""
                  then (w, (untouched, err unbound_token))
                  else refresh_session seen w presented payload session_id fresh checked now
            ]
          ])
    ]

    -- From the session that the access token names.
    unfoldable pub logout_session : Worker → String → ℕ → Worker
    unfolding revoke_session_id
    logout_session w session_id now =
        elim (revoke_session_id w.state.db session_id "logout" now).1 [
          | none ↦ w
          | some session ↦
              let db = (revoke_session_id w.state.db session_id "logout" now).0 in
              close_sockets
                (audited (with_db w db) (get_user db session.user_id) "logout"
                  (session_resource session.session_id) none none)
                session.session_id
        ]

    unfoldable pub logout : Worker → Option String → Option String → ℕ → Answer (Unit {0})
    unfolding logout_session
    logout w bearer cookie now = elim (presented_token bearer cookie) [
      | none ↦ (w, (cleared, ok tt))
      | some token ↦
          if text_eq token "" then (w, (cleared, ok tt)) else (elim (decode_token token) [
            | none ↦ (w, (cleared, ok tt))
            | some payload ↦ elim payload.sid [
              | none ↦ (w, (cleared, ok tt))
              | some session_id ↦
                  if text_eq session_id ""
                  then (w, (cleared, ok tt))
                  else (logout_session w session_id now, (cleared, ok tt))
            ]
          ])
    ]

  module _ (verify_password : String → String → Bool) (hash_password : String → String) where
    -- The user is the row that was loaded for the request.
    unfoldable pub change_password :
        Worker → Login.Account → String → String → ℕ → Answer (Unit {0})
    unfolding revoke_user_sessions
    change_password w user current_password new_password now =
        if not (verify_password current_password user.hashed_password)
        then (w, (untouched, err incorrect_password))
        else let changed = record user { hashed_password = hash_password new_password } in
          let db = (revoke_user_sessions w.state.db user.user.id "password_change" now).0 in
          (
            close_user_sockets
                (audited
                  (record w {
                    state = record { accounts = store w.state.accounts changed; db = db };
                  })
                  (some user.user) "change_password" (user_resource user.user.id) none none)
                user.user.id,
            (untouched, ok tt),
          )
