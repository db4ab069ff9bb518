-- ===== src/Sessions/Revocation.antt =====
-- `revoke_user_sessions` and `revoke_org_sessions` of backend/app/services/sessions.py leave no session of
-- theirs that can be used.
use cerradura_magnetica.Prelude.{
  ℕ, ◌≡◌, refl, Bool, true, false, ◌&&◌, String, List, [], ◌∷◌, none, some, err, arith, ◌==◌,
  ==_iff, is_none, Bool-cases, Option-cases, inl, inr, All, All-imp, All-update_rows_to,
  All-find_row, select-All, select, exists_row,
}
use cerradura_magnetica.Models.Auth.{AuthSession}
use cerradura_magnetica.Sessions.{
  Db, SessionError, plain_error, get_session, revoke_row, revoke_family, revoke_each,
  revoke_user_sessions, revoke_org_sessions, user_in, in_org, get_active_session,
}
use cerradura_magnetica.Sessions.Rotation.{rotate_refresh}

-- A live session under `p` is among those that are still to be revoked.
abbrev IsListed : (AuthSession → Bool) → List AuthSession → AuthSession → Type 0
IsListed p left x =
    (p x && is_none x.revoked_at) ≡ true
    → exists_row (λ (s : AuthSession). s.id == x.id) left ≡ true

-- No session under `p` is live.
abbrev pub AllRevoked : (AuthSession → Bool) → Db → Type 0
AllRevoked p db = All (λ (x : AuthSession). p x ≡ true → is_none x.revoked_at ≡ false) db.sessions

abbrev live_under : (AuthSession → Bool) → AuthSession → Bool
live_under p x = p x && is_none x.revoked_at

-- Where `left` holds every identifier that the SELECT does.
select-IsListed_in :
    (p : AuthSession → Bool) (left xs : List AuthSession)
    → ((k : ℕ)
        → exists_row (λ (s : AuthSession). s.id == k) (select (live_under p) xs) ≡ true
        → exists_row (λ (s : AuthSession). s.id == k) left ≡ true)
    → All (IsListed p left) xs
select-IsListed_in p left [] f = tt
select-IsListed_in p left (x ∷ xs) f = elim (Bool-cases (live_under p x)) [
  | inl hit ↦
      let self : (x.id == x.id) ≡ true = (==_iff x.id x.id).1 refl in
      (
        (λ h. f x.id (rw hit (rw self refl))),
        select-IsListed_in p left xs (λ k h. f k (rw hit (ground (arith, h)))),
      )
  | inr miss ↦
      let skip : select (live_under p) (x ∷ xs) ≡ select (live_under p) xs = rw miss refl in
      ((λ h. cc), select-IsListed_in p left xs (λ k h. f k (rw skip h)))
]

select-IsListed :
    (p : AuthSession → Bool) (xs : List AuthSession)
    → All (IsListed p (select (live_under p) xs)) xs
select-IsListed p xs = select-IsListed_in p (select (live_under p) xs) xs (λ k h. h)

module _ (p : AuthSession → Bool) (reason : String) (now : ℕ) where
  revoke_each-AllRevoked :
      (db : Db) (ss : List AuthSession)
      → All (λ (s : AuthSession). is_none s.revoked_at ≡ true) ss
      → All (IsListed p ss) db.sessions
      → AllRevoked p (revoke_each db ss reason now)
  unfolding revoke_each revoke_family
  revoke_each-AllRevoked db [] live listed =
      All-imp _ _ db.sessions (λ x h k. (ground (arith, h, k))) listed
  revoke_each-AllRevoked db (s ∷ ss) live listed =
      revoke_each-AllRevoked (revoke_family db s reason now) ss live.1 (
        rw live.0 (
          All-update_rows_to (IsListed p (s ∷ ss)) (IsListed p ss) (λ x. x.id == s.id)
            (revoke_row reason now) db.sessions (λ x hit h k. (ground (arith, k)))
            (λ x miss h k. (ground (arith, h, k, miss))) listed))

pub revoke_user_sessions-AllRevoked :
    (db : Db) (user_id : ℕ) (reason : String) (now : ℕ)
    → AllRevoked (λ s. s.user_id == user_id) (revoke_user_sessions db user_id reason now).0
unfolding revoke_user_sessions
revoke_user_sessions-AllRevoked db user_id reason now =
    revoke_each-AllRevoked (λ s. s.user_id == user_id) reason now db _
      (All-imp _ _ _ (λ s h. ground (arith, h))
        (select-All (live_under (λ s. s.user_id == user_id)) db.sessions))
      (select-IsListed (λ s. s.user_id == user_id) db.sessions)

pub revoke_org_sessions-AllRevoked :
    (db : Db) (organization_id : ℕ) (reason : String) (now : ℕ)
    → AllRevoked
        (λ s. user_in (select (in_org organization_id) db.users) s.user_id)
        (revoke_org_sessions db organization_id reason now).0
unfolding revoke_org_sessions
revoke_org_sessions-AllRevoked db organization_id reason now =
    let mine : AuthSession → Bool =
      λ s. user_in (select (in_org organization_id) db.users) s.user_id in
    revoke_each-AllRevoked mine reason now db _
      (All-imp _ _ _ (λ s h. ground (arith, h)) (select-All (live_under mine) db.sessions))
      (select-IsListed mine db.sessions)

-- Where no session of the user is live, none of his access tokens passes the look-up.
pub get_active_session-AllRevoked :
    (db : Db) (user_id : ℕ) (session_id : String) (now : ℕ)
    → AllRevoked (λ s. s.user_id == user_id) db
    → get_active_session db session_id (some user_id) now ≡ none
unfolding get_active_session
get_active_session-AllRevoked db user_id session_id now h =
    elim (Option-cases (get_session db session_id)) [
      | inl absent ↦ rw (absent, get_active_session) refl
      | inr (s, found) ↦
          let dead = All-find_row _ _ db.sessions h found in
          elim (Bool-cases (s.user_id == user_id)) [
            | inl own ↦ rw (found, get_active_session, dead own) refl
            | inr other ↦ rw (found, get_active_session, other) (ground arith)
          ]
    ]

-- And no refresh token of his is exchanged.
pub rotate_refresh-AllRevoked :
    (hash_token : String → String) (db : Db) (user_id : ℕ) (session_id presented fresh : String)
    (checked now : ℕ)
    → AllRevoked (λ s. s.user_id == user_id) db
    → (e : SessionError) × (rotate_refresh hash_token db db session_id presented user_id fresh
          checked now
        ≡ (db, err e))
unfolding rotate_refresh
rotate_refresh-AllRevoked hash_token db user_id session_id presented fresh checked now h =
    elim (Option-cases (get_session db session_id)) [
      | inl absent ↦ (plain_error "Session is not active", rw (absent, rotate_refresh) refl)
      | inr (s, found) ↦
          let dead = All-find_row _ _ db.sessions h found in
          elim (Bool-cases (is_none s.revoked_at)) [
            | inr revoked ↦
                (plain_error "Session is not active", rw (found, rotate_refresh, revoked) refl)
            | inl live ↦ elim (Bool-cases (s.user_id == user_id)) [
              | inr other ↦ (
                plain_error "Token subject does not match session",
                rw (found, rotate_refresh, live, other) refl,
              )
              | inl own ↦ (plain_error "Session is not active", (let gone = dead own in cc))
            ]
          ]
    ]
