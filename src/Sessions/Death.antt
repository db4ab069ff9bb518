-- ===== src/Sessions/Death.antt =====
-- What a revoked family leaves (backend/app/services/sessions.py), and what a revoked session is good for.
use cerradura_magnetica.Prelude.{
  ℕ, ◌≤◌, ◌≡◌, refl, ◌∙◌, true, false, String, Option, none, some, err, arith, ◌==◌, ==_iff,
  is_none, All, find_row-update_rows, All-update_rows_intro,
}
use cerradura_magnetica.Models.Auth.{AuthSession, AuthRefreshToken}
use cerradura_magnetica.Sessions.{
  Db, plain_error, is_expired, get_session, get_active_session, session_is_live, revoke_row,
  of_session, revoke_token, revoke_family,
}
use cerradura_magnetica.Sessions.Rotation.{rotate_refresh}

-- No token of the session is left unrevoked.
abbrev pub FamilyRevoked : ℕ → Db → Type 0
FamilyRevoked session db =
    All (λ (t : AuthRefreshToken). t.auth_session_id ≡ session → is_none t.revoked_at ≡ false)
      db.tokens

abbrev pub IsDead : String → Db → Type 0
IsDead session_id db =
    (s : AuthSession) × (get_session db session_id ≡ some s) × (is_none s.revoked_at ≡ false)

pub le→not_expired : (expires_at now : ℕ) → now ≤ expires_at → is_expired expires_at now ≡ false
le→not_expired expires_at now h = ground arith

module _ (db : Db) (s : AuthSession) (reason : String) (now : ℕ) where
  pub revoke_family-FamilyRevoked : FamilyRevoked s.id (revoke_family db s reason now)
  unfolding revoke_family
  revoke_family-FamilyRevoked =
      All-update_rows_intro _ (of_session s.id) (revoke_token now) db.tokens (λ t hit own. refl)
        (λ t miss own. ground arith)

  pub revoke_family-IsDead :
      (session_id : String)
      → get_session db session_id ≡ some s
      → is_none s.revoked_at ≡ true
      → IsDead session_id (revoke_family db s reason now)
  unfolding revoke_family
  revoke_family-IsDead session_id found live =
      let self : (s.id == s.id) ≡ true = (==_iff s.id s.id).1 refl in
      (
        revoke_row reason now s,
        rw live (
            find_row-update_rows _ (λ x. x.id == s.id) (revoke_row reason now) db.sessions
              (λ x. refl) found
            ∙ (rw self)),
        refl,
      )

pub get_active_session-IsDead :
    (db : Db) (session_id : String) (u : Option ℕ) (now : ℕ)
    → IsDead session_id db
    → get_active_session db session_id u now ≡ none
unfolding get_active_session
get_active_session-IsDead db session_id u now (s, found, revoked) =
    rw (found, get_active_session) (rw revoked)

module _ (hash_token : String → String) where
  pub rotate_refresh-IsDead :
      (seen db : Db) (session_id presented refresh : String) (user checked now : ℕ)
      → IsDead session_id seen
      → rotate_refresh hash_token seen db session_id presented user refresh checked now
        ≡ (db, err (plain_error "Session is not active"))
  unfolding rotate_refresh
  rotate_refresh-IsDead seen db session_id presented refresh user checked now (s, found, revoked) =
      rw (found, rotate_refresh) (rw revoked)

  -- A session that is revoked stays shut: a refresh is refused and writes nothing, and no request
  -- finds the session active.
  pub dead_session :
      (seen db : Db) (session_id presented refresh : String) (user : ℕ) (u : Option ℕ)
      (checked now : ℕ)
      → IsDead session_id seen
      → (rotate_refresh hash_token seen db session_id presented user refresh checked now
          ≡ (db, err (plain_error "Session is not active")))
        × (get_active_session seen session_id u now ≡ none)
        × (session_is_live seen session_id u now ≡ false)
  unfolding session_is_live
  dead_session seen db session_id presented refresh user u checked now dead = (
    rotate_refresh-IsDead seen db session_id presented refresh user checked now dead,
    get_active_session-IsDead seen session_id u now dead,
    rw (get_active_session-IsDead seen session_id u now dead, session_is_live) refl,
  )
