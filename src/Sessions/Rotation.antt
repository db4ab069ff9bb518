-- ===== src/Sessions/Rotation.antt =====
-- backend/app/services/sessions.py: issue_tokens and rotate_refresh. The hash (`hashlib.sha256`) is a
-- parameter; the strings that `uuid`, `secrets` and `jwt` make are arguments. `rotate_refresh` takes the
-- database as its SELECTs saw it apart from the one on which its conditional UPDATE runs.
use cerradura_magnetica.Prelude.{
  ℕ, suc, ◌+◌, Bool, true, false, ◌&&◌, ◌||◌, not, String, text_eq, [], ◌∷◌, ◌++◌, none, some,
  Result, ok, err, ◌==◌, if◌then◌else◌, is_none, find_row, update_rows, row_count,
}
use cerradura_magnetica.Models.Auth.{User, AuthSession, AuthRefreshToken}
use cerradura_magnetica.Sessions.{
  SessionError, Db, AccessClaims, plain_error, is_expired, get_user, get_session,
  organization_active, org_id, claims, first_token, new_session, revoke_family,
}

abbrev pub unspent : ℕ → AuthRefreshToken → Bool
unspent id t = t.id == id && is_none t.used_at

abbrev pub reuse_error : Db → AuthSession → SessionError
reuse_error db session = record {
  message = "Refresh token already used";
  reuse = true;
  session_id = some session.session_id;
  organization_id = org_id db session.user_id;
}

abbrev pub spend_row : ℕ → AuthRefreshToken → AuthRefreshToken
spend_row now t = record t { used_at = some now }

abbrev pub link_row : ℕ → AuthRefreshToken → AuthRefreshToken
link_row next t = record t { replaced_by_id = some next }

module _ (hash_token : String → String) where
  unfoldable pub issue_tokens :
      Db → User → String → String → ℕ → ℕ → Db × (AccessClaims × String × AuthSession)
  issue_tokens db user session_id refresh_token lifetime now =
      let session = new_session db.next_session session_id user.id now (now + lifetime) in
      let token =
        first_token db.next_token session.id (hash_token refresh_token) now (now + lifetime) in
      (
        record db {
          sessions = db.sessions ++ session ∷ [];
          tokens = db.tokens ++ token ∷ [];
          next_session = suc db.next_session;
          next_token = suc db.next_token;
        },
        (claims user session_id, refresh_token, session),
      )

  abbrev pub next_generation : Db → AuthSession → AuthRefreshToken → String → ℕ → AuthRefreshToken
  next_generation db session token refresh now = record {
    id = db.next_token;
    auth_session_id = session.id;
    token_hash = hash_token refresh;
    generation = token.generation + 1;
    issued_at = now;
    expires_at = session.expires_at;
    used_at = none;
    revoked_at = none;
    replaced_by_id = none;
  }

  -- The compare-and-swap, and what follows it.
  unfoldable pub spend :
      Db
      → AuthSession
      → AuthRefreshToken
      → User
      → String
      → ℕ
      → Db × Result SessionError (AccessClaims × String)
  unfolding revoke_family
  spend db session token user refresh now =
      let tokens = update_rows (unspent token.id) (spend_row now) db.tokens in
      if row_count (unspent token.id) db.tokens == 1
      then (
        record db {
          tokens =
              update_rows (λ t. t.id == token.id) (link_row db.next_token) tokens
              ++ next_generation db session token refresh now ∷ [];
          sessions =
              update_rows (λ s. s.id == session.id) (λ s. record s { last_used_at = some now })
                db.sessions;
          next_token = suc db.next_token;
        },
        ok (claims user session.session_id, refresh),
      )
      else (
        revoke_family (record db { tokens = tokens }) session "refresh_race" now,
        err (reuse_error db session),
      )

  -- From the token that was found.
  unfoldable pub rotate_token :
      Db
      → Db
      → AuthSession
      → AuthRefreshToken
      → String
      → ℕ
      → Db × Result SessionError (AccessClaims × String)
  unfolding revoke_family organization_active
  rotate_token seen db session token refresh now =
      if not (is_none token.used_at) || not (is_none token.revoked_at)
      then (revoke_family db session "refresh_reuse" now, err (reuse_error seen session))
      else elim (get_user seen session.user_id) [
        | none ↦ (
          revoke_family db session "user_inactive" now,
          err (record {
            message = "User not found or inactive";
            reuse = false;
            session_id = some session.session_id;
            organization_id = none;
          }),
        )
        | some user ↦
            if not user.is_active
            then (
              revoke_family db session "user_inactive" now,
              err (record {
                message = "User not found or inactive";
                reuse = false;
                session_id = some session.session_id;
                organization_id = none;
              }),
            )
            else if not (organization_active seen user)
            then (
              revoke_family db session "org_suspended" now,
              err (record {
                message = "Organization is suspended";
                reuse = false;
                session_id = some session.session_id;
                organization_id = user.organization_id;
              }),
            )
            else spend db session token user refresh now
      ]

  abbrev pub presented_by : ℕ → String → AuthRefreshToken → Bool
  presented_by session presented t =
      t.auth_session_id == session && text_eq t.token_hash (hash_token presented)

  -- From the live session that was found.
  unfoldable pub rotate_session :
      Db → Db → AuthSession → String → String → ℕ → Db × Result SessionError (AccessClaims × String)
  rotate_session seen db session presented refresh now =
      elim (find_row (presented_by session.id presented) seen.tokens) [
        | none ↦ (db, err (plain_error "Refresh token does not match session"))
        | some token ↦ rotate_token seen db session token refresh now
      ]

  -- `checked` is the clock at the expiry test, `now` at the writes.
  unfoldable pub rotate_refresh :
      Db
      → Db
      → String
      → String
      → ℕ
      → String
      → ℕ
      → ℕ
      → Db × Result SessionError (AccessClaims × String)
  rotate_refresh seen db session_id presented expected_user_id refresh checked now =
      elim (get_session seen session_id) [
        | none ↦ (db, err (plain_error "Session is not active"))
        | some session ↦
            if not (is_none session.revoked_at)
            then (db, err (plain_error "Session is not active"))
            else if not (session.user_id == expected_user_id)
            then (db, err (plain_error "Token subject does not match session"))
            else if is_expired session.expires_at checked
            then (db, err (plain_error "Session expired"))
            else rotate_session seen db session presented refresh now
      ]
