-- ===== src/Sessions/Reuse.antt =====
-- A spent refresh token that is presented again kills its family.
use cerradura_magnetica.Prelude.{
  ℕ, ◌≤◌, ◌≡◌, refl, subst, ◌∙◌, true, false, String, text_eq, [], ◌∷◌, some, ok, err, ◌==◌, ==_iff,
  if◌then◌else◌, is_none, Bool-cases, inl, inr, Option-cases, find_row, update_rows, row_count,
  find_row-update_rows, find_row-append_left,
}
use cerradura_magnetica.Models.Auth.{User, AuthSession, AuthRefreshToken}
use cerradura_magnetica.Sessions.{
  Db, SessionError, AccessClaims, is_expired, get_session, get_user, organization_active,
  revoke_family,
}
use cerradura_magnetica.Sessions.Rotation.{
  unspent, spend_row, link_row, reuse_error, spend, rotate_token, rotate_session, presented_by,
  rotate_refresh, next_generation,
}
use cerradura_magnetica.Sessions.Death.{
  FamilyRevoked, IsDead, revoke_family-FamilyRevoked, revoke_family-IsDead, le→not_expired,
}

module _ (hash_token : String → String) where
  rotate_token-eq-ok :
      (db : Db) {db' : Db} (s : AuthSession) (t : AuthRefreshToken) (refresh : String) (now : ℕ)
      {out : AccessClaims × String}
      → rotate_token hash_token db db s t refresh now ≡ (db', ok out)
      → (owner : User) × (spend hash_token db s t owner refresh now ≡ (db', ok out))
  unfolding rotate_token
  rotate_token-eq-ok db s t refresh now h = elim (Bool-cases (is_none t.used_at)) [
    | inr used ↦ let h1 = rw used at h in cc
    | inl unused ↦
        let h1 = rw unused at h in
        elim (Bool-cases (is_none t.revoked_at)) [
          | inr revoked ↦ let h2 = rw revoked at h1 in cc
          | inl kept ↦
              let h2 = rw kept at h1 in
              elim (Option-cases (get_user db s.user_id)) [
                | inl gone ↦ let h3 = rw gone at h2 in cc
                | inr (owner, hit) ↦
                    let h3 = rw hit at h2 in
                    elim (Bool-cases owner.is_active) [
                      | inr idle ↦ let h4 = rw idle at h3 in cc
                      | inl active ↦
                          let h4 = rw active at h3 in
                          elim (Bool-cases (organization_active db owner)) [
                            | inr shut ↦ let h5 = rw shut at h4 in cc
                            | inl opened ↦ (record owner { is_active = true }, rw opened at h4)
                          ]
                    ]
              ]
        ]
  ]

  rotate_session-eq-ok :
      (db : Db) {db' : Db} (s : AuthSession) (presented refresh : String) (now : ℕ)
      {out : AccessClaims × String}
      → rotate_session hash_token db db s presented refresh now ≡ (db', ok out)
      → (t : AuthRefreshToken) × (find_row (presented_by hash_token s.id presented) db.tokens
          ≡ some t)
        × (rotate_token hash_token db db s t refresh now ≡ (db', ok out))
  unfolding rotate_session
  rotate_session-eq-ok db s presented refresh now h =
      elim (Option-cases (find_row (presented_by hash_token s.id presented) db.tokens)) [
        | inl missing ↦ let h1 = rw (missing, rotate_session) at h in cc
        | inr (t, hit) ↦ (t, hit, rw (hit, rotate_session) at h)
      ]

  -- What a rotation that succeeds has met.
  rotate_refresh-eq-ok :
      (db : Db) {db' : Db} (session_id presented refresh : String) (user checked now : ℕ)
      {out : AccessClaims × String} (s : AuthSession)
      → get_session db session_id ≡ some s
      → rotate_refresh hash_token db db session_id presented user refresh checked now
        ≡ (db', ok out)
      → (is_none s.revoked_at ≡ true)
        × ((s.user_id == user) ≡ true)
        × (rotate_session hash_token db db s presented refresh now ≡ (db', ok out))
  unfolding rotate_refresh
  rotate_refresh-eq-ok db session_id presented refresh user checked now s found h =
      let opened = rw (found, rotate_refresh) at h in
      elim (Bool-cases (is_none s.revoked_at)) [
        | inr revoked ↦ let h1 = rw revoked at opened in cc
        | inl live ↦
            let h1 = rw live at opened in
            elim (Bool-cases (s.user_id == user)) [
              | inr other ↦ let h2 = rw other at h1 in cc
              | inl own ↦
                  let h2 = rw own at h1 in
                  elim (Bool-cases (is_expired s.expires_at checked)) [
                    | inl old ↦ let h3 = rw old at h2 in cc
                    | inr fresh ↦ (live, own, rw fresh at h2)
                  ]
            ]
      ]

  -- A token that has been spent.
  abbrev pub IsSpent : Db → ℕ → String → Type 0
  IsSpent db session presented =
      (t : AuthRefreshToken) × (find_row (presented_by hash_token session presented) db.tokens
        ≡ some t)
      × (is_none t.used_at ≡ false)

  -- The same session row, but for the time of its last use.
  abbrev pub touched : ℕ → AuthSession → AuthSession
  touched now s = record s { last_used_at = some now }

  spend-eq-ok :
      (db : Db) {db' : Db} (s : AuthSession) (t : AuthRefreshToken) (owner : User)
      (session_id presented refresh : String) (now : ℕ)
      → {out : AccessClaims × String} → get_session db session_id ≡ some s
      → find_row (presented_by hash_token s.id presented) db.tokens ≡ some t
      → spend hash_token db s t owner refresh now ≡ (db', ok out)
      → IsSpent db' s.id presented × (get_session db' session_id ≡ some (touched now s))
  unfolding spend
  spend-eq-ok db s t owner session_id presented refresh now found hit h =
      let self : (t.id == t.id) ≡ true = (==_iff t.id t.id).1 refl in
      elim (Bool-cases (row_count (unspent t.id) db.tokens == 1)) [
        | inr lost ↦ let h1 = rw lost at h in cc
        | inl won ↦
            let h1 = rw won at h in
            let spent =
              find_row-update_rows (presented_by hash_token s.id presented) (unspent t.id)
                (spend_row now) db.tokens (λ x. refl) hit in
            let linked =
              find_row-update_rows (presented_by hash_token s.id presented) (λ x. x.id == t.id)
                (link_row db.next_token) (update_rows (unspent t.id) (spend_row now) db.tokens)
                (λ x. refl) spent in
            let kept =
              find_row-append_left (presented_by hash_token s.id presented) _
                (next_generation hash_token db s t refresh now ∷ []) linked in
            let own : (s.id == s.id) ≡ true = (==_iff s.id s.id).1 refl in
            let after = if unspent t.id t then spend_row now t else t in
            let spent_row : is_none
                  (if after.id == t.id then link_row db.next_token after else after).used_at
                ≡ false =
              elim (Bool-cases (is_none t.used_at)) [
                | inl e ↦ rw (self, e, self) refl
                | inr e ↦ rw (self, e, self) e
              ] in
            let session =
              find_row-update_rows (λ x. text_eq x.session_id session_id) (λ x. x.id == s.id)
                (touched now) db.sessions (λ x. refl) found in
            subst
              (λ r.
                IsSpent r.0 s.id presented × (get_session r.0 session_id ≡ some (touched now s)))
              h1 ((_, kept, spent_row), session ∙ (rw own))
      ]

  rotate_token-IsSpent :
      (db : Db) (s : AuthSession) (t : AuthRefreshToken) (refresh : String) (now : ℕ)
      → is_none t.used_at ≡ false
      → rotate_token hash_token db db s t refresh now
        ≡ (revoke_family db s "refresh_reuse" now, err (reuse_error db s))
  unfolding rotate_token
  rotate_token-IsSpent db s t refresh now used = rw (used, rotate_token) refl

  rotate_refresh-IsSpent :
      (db : Db) (session_id presented refresh : String) (user checked now : ℕ) (s : AuthSession)
      → get_session db session_id ≡ some s
      → is_none s.revoked_at ≡ true
      → (s.user_id == user) ≡ true
      → checked ≤ s.expires_at
      → IsSpent db s.id presented
      → rotate_refresh hash_token db db session_id presented user refresh checked now
        ≡ (revoke_family db s "refresh_reuse" now, err (reuse_error db s))
  unfolding rotate_refresh rotate_session
  rotate_refresh-IsSpent db session_id presented refresh user checked now s found live own fresh
        (t, hit, used) =
      rw (found, rotate_refresh)
        (rw (live, own, le→not_expired s.expires_at checked fresh)
          (rw (hit, rotate_session) (rotate_token-IsSpent db s t refresh now used)))

  -- A refresh token that has been rotated once is presented again before its session expires, by
  -- the next call that runs: this second presentation is refused as reuse, every token of the
  -- session is revoked, the one that the first presentation handed out included, and the session is
  -- dead.
  pub replay_kills :
      (db : Db) (db' : Db) (session_id presented : String) (refresh refresh' : String)
      (user checked now checked' now' : ℕ)
      → (out : AccessClaims × String) (s : AuthSession) → get_session db session_id ≡ some s
      → rotate_refresh hash_token db db session_id presented user refresh checked now
        ≡ (db', ok out)
      → checked' ≤ s.expires_at
      → let r =
          rotate_refresh hash_token db' db' session_id presented user refresh' checked' now' in
        ((e : SessionError) × (r.1 ≡ err e) × (e.reuse ≡ true) × (e.session_id ≡ some s.session_id))
        × FamilyRevoked s.id r.0
        × IsDead session_id r.0
  replay_kills db db' session_id presented refresh refresh' user checked now checked' now' out s
        found first fresh =
      let (live, own, h1) =
        rotate_refresh-eq-ok db session_id presented refresh user checked now s found first in
      let (t, hit, h2) = rotate_session-eq-ok db s presented refresh now h1 in
      let (owner, h3) = rotate_token-eq-ok db s t refresh now h2 in
      let (spent, found') =
        spend-eq-ok db s t owner session_id presented refresh now found hit h3 in
      let again =
        rotate_refresh-IsSpent db' session_id presented refresh' user checked' now' (touched now s)
          found' live own fresh spent in
      rw again (
        (reuse_error db' (touched now s), refl, refl, refl),
        revoke_family-FamilyRevoked db' (touched now s) "refresh_reuse" now',
        revoke_family-IsDead db' (touched now s) "refresh_reuse" now' session_id found' live,
      )
