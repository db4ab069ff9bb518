-- ===== src/Users/Suspension.antt =====
-- backend/app/api/v1/users.py and organizations.py: a change that takes the access away takes it at once.
use cerradura_magnetica.Prelude.{
  ℕ, ◌≡◌, refl, sym, ap, subst, ◌∙◌, ◌&&◌, Bool, true, false, not, String, none, some, ok, err,
  ◌==◌, ==_iff, holds, Bool-cases, Result-cases, inl, inr, All-imp, select, find_row, update_rows,
}
use cerradura_magnetica.Models.Auth.{Organization, User, super_admin}
use cerradura_magnetica.Guards.{role_eq}
use cerradura_magnetica.Sessions.{
  Db, SessionError, get_active_session, revoke_org_sessions, user_in, in_org,
}
use cerradura_magnetica.Sessions.Rotation.{rotate_refresh}
use cerradura_magnetica.Sessions.Revocation.{
  AllRevoked, revoke_user_sessions-AllRevoked, revoke_org_sessions-AllRevoked,
  get_active_session-AllRevoked, rotate_refresh-AllRevoked,
}
use cerradura_magnetica.Login as Login
use cerradura_magnetica.Monitor.{close_user, close_org}
use cerradura_magnetica.Monitor.Registry.{IsFiled}
use cerradura_magnetica.Monitor.Calls.{AllSignalled, signal_all-AllSignalled, close-AllSignalled}
use cerradura_magnetica.Monitor.Bus.{revoke_user, revoke_org}
use cerradura_magnetica.Account.{Worker}
use cerradura_magnetica.Users.{
  UserUpdate, super_admin_only, is_super, get_scoped_user, with_fields, invalidates, invalidate,
  write_update, update_user, update_organization,
}

module _ (hash_token : String → String) where
  -- No access token of the user finds a session, and no refresh token of his is exchanged.
  pub record IsLocked (db : Db) (user_id : ℕ) : Type 0 where
    pub no_session :
        (session_id : String) (now : ℕ) → get_active_session db session_id (some user_id) now ≡ none
    pub no_refresh :
        (session_id presented fresh : String) (checked now : ℕ)
        → (e : SessionError) × (rotate_refresh hash_token db db session_id presented user_id fresh
              checked now
            ≡ (db, err e))

  AllRevoked-IsLocked :
      (db : Db) (user_id : ℕ) → AllRevoked (λ s. s.user_id == user_id) db → IsLocked db user_id
  AllRevoked-IsLocked db user_id h = record {
    no_session = λ session_id now. get_active_session-AllRevoked db user_id session_id now h;
    no_refresh = λ session_id presented fresh checked now.
        rotate_refresh-AllRevoked hash_token db user_id session_id presented fresh checked now h;
  }

  module _ (lower hash_password : String → String) (enabled reachable : Bool) where
    write_update-IsLocked :
        (w : Worker) (target : Login.Account) (body : UserUpdate) (actor : User) (now : ℕ)
        → invalidates body ≡ true
        → let r = write_update lower hash_password enabled reachable w target body actor now in
          (r.1 ≡ ok (with_fields lower hash_password target body))
          × IsLocked r.0.state.db target.user.id
          × AllSignalled (λ c. c.user_id == target.user.id) r.0.manager
    unfolding write_update invalidate revoke_user close_user
    write_update-IsLocked w target body actor now ends =
        rw (ends, write_update)
          (
            refl,
            AllRevoked-IsLocked _ target.user.id
                (revoke_user_sessions-AllRevoked _ target.user.id "admin_update" now),
            signal_all-AllSignalled _ w.manager.by_org,
          )

    -- An update of a user that went through, and that switched the account off, set a password or set a
    -- role, leaves none of the user's access or refresh tokens in use, and the close flag set on each of
    -- his sockets in that worker.
    pub update_user-IsLocked :
        (w : Worker) (user_id org_id now : ℕ) (body : UserUpdate) (actor : User) (a : Login.Account)
        → invalidates body ≡ true
        → let r =
            update_user lower hash_password enabled reachable w user_id body org_id actor now in
          r.1 ≡ ok a
          → IsLocked r.0.state.db a.user.id × AllSignalled (λ c. c.user_id == a.user.id) r.0.manager
    unfolding update_user
    update_user-IsLocked w user_id org_id now body actor a ends h =
        elim (Result-cases (get_scoped_user w user_id actor org_id)) [
          | inr (e, refused) ↦ let h1 : err e ≡ ok a = rw (refused, update_user) at h in cc
          | inl (target, scoped) ↦
              let barred = holds body.role (λ r. role_eq r super_admin) && not (is_super actor) in
              elim (Bool-cases barred) [
                | inl stopped ↦
                    let h1 : err super_admin_only ≡ ok a = rw (scoped, update_user, stopped) at h in
                    cc
                | inr through ↦
                    let (done, locked, closed) =
                      write_update-IsLocked w target body actor now ends in
                    let h1 : (write_update lower hash_password enabled reachable w target body actor
                          now).1
                        ≡ ok a =
                      rw (scoped, update_user, through) at h in
                    let h2 : ok (with_fields lower hash_password target body) ≡ ok a =
                      sym done ∙ h1 in
                    let same : with_fields lower hash_password target body ≡ a = cc in
                    let key : target.user.id ≡ a.user.id =
                      ap (λ (x : Login.Account). x.user.id) same in
                    rw (scoped, update_user, through, ← key) (locked, closed)
              ]
        ]

    -- Suspending an organization that exists is answered with it switched off; from then on no access and
    -- no refresh token of any of its users is in use, and the close flag is set on each socket that watches
    -- it in that worker, where the worker files its sockets by organization.
    pub suspension-IsLocked :
        (w : Worker) (org_id user_id now : ℕ) (actor : User) (org : Organization)
        → find_row (λ (o : Organization). o.id == org_id) w.state.db.organizations ≡ some org
        → user_in (select (in_org org_id) w.state.db.users) user_id ≡ true
        → IsFiled w.manager.by_org
        → let r = update_organization enabled reachable w org_id (some false) actor now in
          (r.1 ≡ ok (record org { is_active = false }))
          × IsLocked r.0.state.db user_id
          × AllSignalled (λ c. c.org_id == org_id) r.0.manager
    unfolding update_organization revoke_org close_org
    suspension-IsLocked w org_id user_id now actor org found member filed =
        let mine = λ (u : ℕ). user_in (select (in_org org_id) w.state.db.users) u in
        let off : Organization = record org { is_active = false } in
        let db : Db = record w.state.db {
          organizations =
              update_rows (λ (o : Organization). o.id == org_id) (λ _. off)
                w.state.db.organizations;
        } in
        let revoked = revoke_org_sessions-AllRevoked db org_id "org_suspended" now in
        let his =
          All-imp _ _ (revoke_org_sessions db org_id "org_suspended" now).0.sessions
            (λ s k own.
              k (subst (λ u. mine u ≡ true) (sym ((==_iff s.user_id user_id).0 own)) member))
            revoked in
        rw (found, update_organization)
          (
            refl,
            AllRevoked-IsLocked _ user_id his,
            (close-AllSignalled w.manager "" 0 org_id filed).2,
          )
