-- ===== src/Account/SignOut.antt =====
-- backend/app/api/v1/auth.py: what is over after a logout, and after a change of the password.
use cerradura_magnetica.Prelude.{
  ℕ, ◌≡◌, ◌⊎◌, refl, ap, ◌∙◌, Bool, true, false, String, text_eq, text_eq_iff, Option, none, some,
  ok, err, ◌==◌, ==_iff, is_none, Bool-cases, Option-cases, inl, inr, find_row, find_row-holds,
  find_row-replace,
}
use cerradura_magnetica.Models.Auth.{AuthSession}
use cerradura_magnetica.Sessions.{
  Db, SessionError, get_session, get_active_session, revoke_session_id, revoke_user_sessions,
  revoke_family, revoke_row,
}
use cerradura_magnetica.Sessions.Rotation.{rotate_refresh}
use cerradura_magnetica.Sessions.Revocation.{
  revoke_user_sessions-AllRevoked, get_active_session-AllRevoked, rotate_refresh-AllRevoked,
}
use cerradura_magnetica.Sessions.Death.{IsDead, revoke_family-IsDead, get_active_session-IsDead}
use cerradura_magnetica.Guards.{TokenPayload, presented_token}
use cerradura_magnetica.Login as Login
use cerradura_magnetica.Monitor.{close_user, close_session}
use cerradura_magnetica.Monitor.Calls.{AllSignalled, signal_all-AllSignalled}
use cerradura_magnetica.Monitor.Bus.{revoke_user, revoke_session}
use cerradura_magnetica.Account.{Worker, cleared, logout_session, logout, change_password}

module _ (enabled reachable : Bool) where
  module _ (verify_password : String → String → Bool)
      (hash_password hash_token : String → String) where
    -- What holds of a worker after the user has changed his password.
    pub record IsSignedOut (w : Worker) (user_id : ℕ) (new_password : String) : Type 0 where
      pub no_session :
          (session_id : String) (now : ℕ)
          → get_active_session w.state.db session_id (some user_id) now ≡ none
      pub no_refresh :
          (session_id presented fresh : String) (checked now : ℕ)
          → (e : SessionError) × (rotate_refresh hash_token w.state.db w.state.db session_id
                presented user_id fresh checked now
              ≡ (w.state.db, err e))
      pub no_socket : AllSignalled (λ c. c.user_id == user_id) w.manager
      pub row : Login.Account
      pub found : find_row (λ (a : Login.Account). a.user.id == user_id) w.state.accounts ≡ some row
      pub password : verify_password new_password row.hashed_password ≡ true

    -- After a password change that was given the right current password, the user's row checks the new
    -- password, where the hash of a password verifies it; no access token of the user finds a session, no
    -- refresh token of the user is exchanged, and every socket of the user in that worker has its close
    -- flag set.
    pub change_password-IsSignedOut :
        (w : Worker) (user : Login.Account) (current_password new_password : String) (now : ℕ)
        → ((p : String) → verify_password p (hash_password p) ≡ true)
        → find_row (λ (a : Login.Account). a.user.id == user.user.id) w.state.accounts ≡ some user
        → verify_password current_password user.hashed_password ≡ true
        → let r =
            change_password enabled reachable verify_password hash_password w user current_password
              new_password now in
          (r.1.1 ≡ ok tt) × IsSignedOut r.0 user.user.id new_password
    unfolding change_password revoke_user close_user
    change_password-IsSignedOut w user current_password new_password now bcrypt found right =
        let changed : Login.Account = record user {
          hashed_password = hash_password new_password;
        } in
        let revoked =
          revoke_user_sessions-AllRevoked w.state.db user.user.id "password_change" now in
        let db = (revoke_user_sessions w.state.db user.user.id "password_change" now).0 in
        rw right (
          refl,
          record {
            no_session =
                λ session_id t. get_active_session-AllRevoked db user.user.id session_id t revoked;
            no_refresh = λ session_id presented fresh checked t.
                rotate_refresh-AllRevoked hash_token db user.user.id session_id presented fresh
                  checked t revoked;
            no_socket = signal_all-AllSignalled _ w.manager.by_org;
            row = changed;
            found =
                find_row-replace (λ (a : Login.Account). a.user.id == user.user.id) changed
                  w.state.accounts ((==_iff user.user.id user.user.id).1 refl) found;
            password = bcrypt new_password;
          },
        )

  module _ (hash_token : String → String) (decode_token : String → Option TokenPayload) where
    -- No session of the identifier, or one that is revoked.
    IsOver : String → Db → Type 0
    IsOver session_id db = (get_session db session_id ≡ none) ⊎ IsDead session_id db

    get_active_session-IsOver :
        (db : Db) (session_id : String) (u : Option ℕ) (now : ℕ)
        → IsOver session_id db
        → get_active_session db session_id u now ≡ none
    unfolding IsOver get_active_session
    get_active_session-IsOver db session_id u now (inl absent) =
        rw (get_active_session, absent) refl
    get_active_session-IsOver db session_id u now (inr dead) =
        get_active_session-IsDead db session_id u now dead

    logout_session-eq-same :
        (w : Worker) (session_id : String) (now : ℕ)
        → IsOver session_id w.state.db
        → logout_session enabled reachable hash_token decode_token w session_id now ≡ w
    unfolding logout_session revoke_session_id IsOver
    logout_session-eq-same w session_id now (inl absent) = rw (absent, logout_session) refl
    logout_session-eq-same w session_id now (inr (s, found, revoked)) =
        rw (found, logout_session, revoked) refl

    logout_session-live :
        (w : Worker) (session_id : String) (now : ℕ) (s : AuthSession)
        → get_session w.state.db session_id ≡ some s
        → is_none s.revoked_at ≡ true
        → let w' = logout_session enabled reachable hash_token decode_token w session_id now in
          IsDead session_id w'.state.db
          × AllSignalled (λ c. text_eq c.session_id session_id) w'.manager
    unfolding logout_session revoke_session_id revoke_session close_session
    logout_session-live w session_id now s found live =
        let named : s.session_id ≡ session_id = (text_eq_iff s.session_id session_id).0 (
          find_row-holds (λ (x : AuthSession). text_eq x.session_id session_id) w.state.db.sessions
            found) in
        let revoked : ◌≡◌ {A = Db × Option AuthSession}
            (revoke_session_id w.state.db session_id "logout" now)
            (revoke_family w.state.db s "logout" now, some (revoke_row "logout" now s)) =
          rw (found, revoke_session_id, live) refl in
        let over : IsDead session_id (revoke_session_id w.state.db session_id "logout" now).0 =
          rw revoked (revoke_family-IsDead w.state.db s "logout" now session_id found live) in
        rw (found, logout_session, live, named) (over, signal_all-AllSignalled _ w.manager.by_org)

    logout_session-IsOver :
        (w : Worker) (session_id : String) (now : ℕ)
        → IsOver session_id
            (logout_session enabled reachable hash_token decode_token w session_id now).state.db
    unfolding IsOver
    logout_session-IsOver w session_id now =
        elim (Option-cases (get_session w.state.db session_id)) [
          | inl absent ↦ rw (logout_session-eq-same w session_id now (inl absent)) (inl absent)
          | inr (s, found) ↦ elim (Bool-cases (is_none s.revoked_at)) [
            | inr revoked ↦
                let dead : IsOver session_id w.state.db = inr (s, found, revoked) in
                rw (logout_session-eq-same w session_id now dead) dead
            | inl live ↦ inr (logout_session-live w session_id now s found live).0
          ]
        ]

    logout-eq-logout_session :
        (w : Worker) (bearer cookie : Option String) (now : ℕ) (token session_id : String)
        (payload : TokenPayload)
        → presented_token bearer cookie ≡ some token
        → text_eq token "" ≡ false
        → decode_token token ≡ some payload
        → payload.sid ≡ some session_id
        → text_eq session_id "" ≡ false
        → logout enabled reachable hash_token decode_token w bearer cookie now ≡ (
          logout_session enabled reachable hash_token decode_token w session_id now,
          (cleared, ok tt),
        )
    unfolding logout
    logout-eq-logout_session w bearer cookie now token session_id payload shown filled decoded bound
          named =
        rw (shown, logout, filled, decoded, bound, named) refl

    -- A logout with an access token of a session, of whatever state or none, leaves a database in which
    -- no request finds that session active, clears the cookies and answers that it is done; where the
    -- session was live, its sockets in that worker have their close flag set. A second logout with the
    -- token changes nothing.
    pub logout_signs_out :
        (w : Worker) (bearer cookie : Option String) (now later : ℕ) (token session_id : String)
        (payload : TokenPayload)
        → presented_token bearer cookie ≡ some token
        → text_eq token "" ≡ false
        → decode_token token ≡ some payload
        → payload.sid ≡ some session_id
        → text_eq session_id "" ≡ false
        → let r = logout enabled reachable hash_token decode_token w bearer cookie now in
          (r.1 ≡ (cleared, ok tt))
          × ((u : Option ℕ) (t : ℕ) → get_active_session r.0.state.db session_id u t ≡ none)
          × ((s : AuthSession)
              → get_session w.state.db session_id ≡ some s
              → is_none s.revoked_at ≡ true
              → AllSignalled (λ c. text_eq c.session_id session_id) r.0.manager)
          × (logout enabled reachable hash_token decode_token r.0 bearer cookie later
              ≡ (r.0, (cleared, ok tt)))
    logout_signs_out w bearer cookie now later token session_id payload shown filled decoded bound
          named =
        let w' = logout_session enabled reachable hash_token decode_token w session_id now in
        let over = logout_session-IsOver w session_id now in
        rw
          (logout-eq-logout_session w bearer cookie now token session_id payload shown filled
            decoded bound named)
          (
            refl,
            λ u t. get_active_session-IsOver w'.state.db session_id u t over,
            λ s found live. (logout_session-live w session_id now s found live).1,
            logout-eq-logout_session w' bearer cookie later token session_id payload shown filled
                  decoded bound named
                ∙ ap (λ x. (x, (cleared, ok tt))) (logout_session-eq-same w' session_id later over),
          )
