-- ===== src/Sessions/SingleUse.antt =====
-- A refresh token is spent once, however the requests that found it unused are interleaved.
use cerradura_magnetica.Prelude.{
  ℕ, ◌+◌, ◌≤◌, ◌<◌, ◌≡◌, refl, false, String, List, [], ◌∷◌, Result, ok, err, arith, ◌==◌, ==_iff,
  Bool-cases, inl, inr, update_rows, row_count, row_count-append, row_count-update_rows,
  row_count-update_rows_same,
}
use cerradura_magnetica.Models.Auth.{User, AuthSession, AuthRefreshToken}
use cerradura_magnetica.Sessions.{Db, of_session, revoke_token, revoke_family}
use cerradura_magnetica.Sessions.Rotation.{unspent, spend_row, link_row, spend, next_generation}

-- A request that has passed the tests of `rotate_refresh` on its own reading of the tables.
pub record Attempt : Type 0 where
  pub session : AuthSession
  pub owner : User
  pub refresh : String
  pub at_time : ℕ

abbrev pub win {ℓ κ} : {E : Type ℓ} {A : Type ℓ} {S : Type κ} → S × Result E A → ℕ
win r = elim r.1 [ ok _ ↦ 1 | err _ ↦ 0 ]

module _ (hash_token : String → String) (t : AuthRefreshToken) where
  -- How many of the requests succeed, one after another on the table that the last one left.
  abbrev pub wins : Db → List Attempt → ℕ
  wins db [] = 0
  wins db (a ∷ rest) =
      let r = spend hash_token db a.session t a.owner a.refresh a.at_time in win r + wins r.0 rest

  all_spent :
      (now : ℕ) (tokens : List AuthRefreshToken)
      → row_count (unspent t.id) (update_rows (unspent t.id) (spend_row now) tokens) ≡ 0
  all_spent now tokens =
      let taken =
        row_count-update_rows (unspent t.id) (unspent t.id) (spend_row now) tokens
          (λ x h. (h, ground arith)) in
      omega arith

  spend_consumes :
      (db : Db) (a : Attempt)
      → t.id < db.next_token
      → let r = spend hash_token db a.session t a.owner a.refresh a.at_time in
        (win r + row_count (unspent t.id) r.0.tokens ≤ row_count (unspent t.id) db.tokens)
        × (t.id < r.0.next_token)
  unfolding spend revoke_family
  spend_consumes db a old =
      let spent = update_rows (unspent t.id) (spend_row a.at_time) db.tokens in
      let none_left = all_spent a.at_time db.tokens in
      elim (Bool-cases (row_count (unspent t.id) db.tokens == 1)) [
        | inl won ↦
            let one = (==_iff (row_count (unspent t.id) db.tokens) 1).0 won in
            let linked =
              row_count-update_rows_same (unspent t.id) (λ x. x.id == t.id) (link_row db.next_token)
                spent (λ x. refl) in
            let next = next_generation hash_token db a.session t a.refresh a.at_time in
            let both =
              row_count-append (unspent t.id)
                (update_rows (λ x. x.id == t.id) (link_row db.next_token) spent) (next ∷ []) in
            let other : (db.next_token == t.id) ≡ false = ground arith in
            rw won (rw (both, linked, none_left, other) (omega arith), omega arith)
        | inr lost ↦
            let kept =
              row_count-update_rows_same (unspent t.id) (of_session a.session.id)
                (revoke_token a.at_time) spent (λ x. refl) in
            rw lost (rw (kept, none_left) (omega arith), old)
      ]

  wins_bound :
      (db : Db) (attempts : List Attempt)
      → t.id < db.next_token
      → wins db attempts ≤ row_count (unspent t.id) db.tokens
  wins_bound db [] old = omega arith
  wins_bound db (a ∷ rest) old =
      let (used, old') = spend_consumes db a old in
      let h =
        wins_bound (spend hash_token db a.session t a.owner a.refresh a.at_time).0 rest old' in
      omega arith

  -- Any number of requests may have found the same refresh token unused, each on its own reading of
  -- the tables. At most one of them gets the next pair of tokens, where at most one unspent row has
  -- the token's identifier and identifiers that are drawn later are larger.
  pub single_use :
      (db : Db) (attempts : List Attempt)
      → row_count (unspent t.id) db.tokens ≤ 1
      → t.id < db.next_token
      → wins db attempts ≤ 1
  single_use db attempts key old = let h = wins_bound db attempts old in omega arith
