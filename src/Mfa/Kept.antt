-- ===== src/Mfa/Kept.antt =====
-- A second factor that is switched on stays on: no series of requests takes it off or replaces its secret
-- without the password and a code.
use cerradura_magnetica.Prelude.{
  ℕ, ◌≡◌, sym, ap, ◌∙◌, Bool, true, false, ◌&&◌, String, List, [], ◌∷◌, Option, some, arith, ◌==◌,
  ==_iff, Bool-cases, inl, inr, Option-cases, All, find_row, find_row-holds, find_row-replace,
  find_row-replace_ne,
}
use cerradura_magnetica.Models.Auth.{User}
use cerradura_magnetica.Login.{Account, verify_code}
use cerradura_magnetica.Mfa.{
  MfaRequest, setup, enable, regenerate, disable, mfa_setup, mfa_enable,
  mfa_regenerate_recovery_codes, mfa_disable, generate, answer, serve, serve_all,
}

-- The columns that the second factor rests on.
abbrev pub IsKept : Account → Account → Type 0
IsKept a b =
    (b.user ≡ a.user)
    × (b.mfa_enabled ≡ a.mfa_enabled)
    × (b.mfa_secret ≡ a.mfa_secret)
    × (b.hashed_password ≡ a.hashed_password)

IsKept-trans : (a b c : Account) → IsKept a b → IsKept b c → IsKept a c
IsKept-trans a b c h k = (k.0 ∙ h.0, k.1 ∙ h.1, k.2 ∙ h.2, k.3 ∙ h.3)

some_injective : {A : Type 0} {x y : A} → some x ≡ some y → x ≡ y
some_injective h = cc

module _ (verify_password verify_totp : String → String → Bool)
    (hash_token lower strip : String → String) where
  -- A request to switch the factor off, with the password and a code.
  abbrev pub switches_off : String → Option String → MfaRequest → Bool
  switches_off hashed secret (disable password code) =
      verify_password password hashed
      && verify_code verify_password verify_totp hash_token lower strip secret (some code)
  switches_off hashed secret _ = false

  answer-user :
      (a : Account) (r : MfaRequest)
      → (answer verify_password verify_totp hash_token lower strip a r).0.user ≡ a.user
  unfolding answer mfa_setup mfa_enable mfa_regenerate_recovery_codes mfa_disable generate
  answer-user a (setup secret) = ground arith
  answer-user a (enable code drawn) = ground arith
  answer-user a (regenerate password code drawn) = ground arith
  answer-user a (disable password code) = ground arith

  answer-IsKept :
      (a : Account) (r : MfaRequest)
      → a.mfa_enabled ≡ true
      → switches_off a.hashed_password a.mfa_secret r ≡ false
      → IsKept a (answer verify_password verify_totp hash_token lower strip a r).0
  unfolding answer mfa_setup mfa_enable mfa_regenerate_recovery_codes mfa_disable generate
  answer-IsKept a (setup secret) on h = ground arith
  answer-IsKept a (enable code drawn) on h = ground arith
  answer-IsKept a (regenerate password code drawn) on h = ground arith
  answer-IsKept a (disable password code) on h = ground arith

  -- The row of the user is found with the factor on, and with the secret and the password.
  pub record IsOn (accounts : List Account) (id : ℕ) (a : Account) : Type 0 where
    pub row : Account
    pub found : find_row (λ (x : Account). x.user.id == id) accounts ≡ some row
    pub kept : IsKept a row

  abbrev pub Spares : Account → ℕ → ℕ × MfaRequest → Type 0
  Spares a id r = r.0 ≡ id → switches_off a.hashed_password a.mfa_secret r.1 ≡ false

  serve-IsOn :
      (accounts : List Account) (id : ℕ) (a : Account) (r : ℕ × MfaRequest)
      → a.user.id ≡ id
      → a.mfa_enabled ≡ true
      → Spares a id r
      → IsOn accounts id a
      → IsOn (serve verify_password verify_totp hash_token lower strip accounts r) id a
  unfolding serve
  serve-IsOn accounts id a (caller, request) own on spares h =
      elim (Option-cases (find_row (λ (x : Account). x.user.id == caller) accounts)) [
        | inl absent ↦ rw (absent, serve) h
        | inr (loaded, found) ↦
            let b = (answer verify_password verify_totp hash_token lower strip loaded request).0 in
            let named : b.user ≡ loaded.user = answer-user loaded request in
            let is_caller : loaded.user.id ≡ caller =
              (==_iff loaded.user.id caller).0
                (find_row-holds (λ (x : Account). x.user.id == caller) accounts found) in
            elim (Bool-cases (caller == id)) [
              | inl same ↦
                  let here : caller ≡ id = (==_iff caller id).0 same in
                  let mine : find_row (λ (x : Account). x.user.id == id) accounts ≡ some loaded =
                    rw (← here) found in
                  let row_is : loaded ≡ h.row = some_injective (sym mine ∙ h.found) in
                  let before : IsKept a loaded = rw row_is h.kept in
                  let quiet : switches_off loaded.hashed_password loaded.mfa_secret request
                      ≡ false =
                    rw (before.2, before.3) (spares here) in
                  let after = answer-IsKept loaded request (before.1 ∙ on) quiet in
                  let key : b.user.id ≡ id = ap (λ (u : User). u.id) named ∙ is_caller ∙ here in
                  rw (found, serve)
                    (record {
                      row = b;
                      found = rw key (
                          find_row-replace (λ (x : Account). x.user.id == id) b accounts
                            ((==_iff b.user.id id).1 key) mine);
                      kept = IsKept-trans a loaded b before after;
                    })
              | inr other ↦
                  let key : b.user.id ≡ caller = ap (λ (u : User). u.id) named ∙ is_caller in
                  rw (found, serve)
                    (record {
                      row = h.row;
                      found = rw key (
                          find_row-replace_ne (λ (x : Account). x.user.id == id)
                            (λ (x : Account). x.user.id == caller) b accounts (rw key other)
                            (λ x hit. rw ((==_iff x.user.id caller).0 hit) other)
                          ∙ h.found);
                      kept = h.kept;
                    })
            ]
      ]

  -- An account whose second factor is on keeps the factor, its secret and its password through any
  -- requests to the endpoints, of any users, as long as none of its own requests to switch the factor
  -- off carries the password and a code of that secret.
  pub mfa_kept :
      (accounts : List Account) (id : ℕ) (a : Account) (requests : List (ℕ × MfaRequest))
      → a.user.id ≡ id
      → a.mfa_enabled ≡ true
      → All (Spares a id) requests
      → IsOn accounts id a
      → IsOn (serve_all verify_password verify_totp hash_token lower strip accounts requests) id a
  unfolding serve_all
  mfa_kept accounts id a [] own on spares h = h
  mfa_kept accounts id a (r ∷ rest) own on spares h =
      mfa_kept (serve verify_password verify_totp hash_token lower strip accounts r) id a rest own
        on spares.1 (serve-IsOn accounts id a r own on spares.0 h)
