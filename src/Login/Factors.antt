-- ===== src/Login/Factors.antt =====
-- What a login that succeeds has proved, and how failures lock the account.
use cerradura_magnetica.Prelude.{
  ℕ, ◌≡◌, ◌⊎◌, inl, inr, refl, Bool, true, false, not, String, text_eq, some, Result, ok, err,
  if◌then◌else◌, Option-cases, Result-cases, find_row,
}
use cerradura_magnetica.Sessions.{AccessClaims, organization_active}
use cerradura_magnetica.Login.{
  Account, LoginRequest, LoginError, mfa_required, invalid_mfa, locked, disabled, suspended,
  incorrect, store, finish_login, State, Settings, register_failed_login, is_locked, verify_code,
  second_factor, consume, login_known, login,
}

-- The three endings of the second factor, whatever rows they leave.
ends_well :
    (mfa asked good : Bool) (a r c : Account)
    → let ending : Account × Result LoginError (Unit {0}) =
        if not mfa
        then (a, ok tt)
        else if asked
        then (a, err mfa_required)
        else if not good
        then (r, err invalid_mfa)
        else (c, ok tt) in
      ending.1 ≡ ok tt → (mfa ≡ false) ⊎ (good ≡ true)
ends_well false asked good a r c h = inl refl
ends_well true true good a r c h = cc
ends_well true false false a r c h = cc
ends_well true false true a r c h = inr refl

abbrev Outcome : Type 0
Outcome = State × Result LoginError (AccessClaims × String)

-- A test before the rest of a login.
gate :
    (b : Bool) (e : LoginError) (st : State) (rest : Outcome) (out : AccessClaims × String)
    → let ending : Outcome = if b then (st, err e) else rest in
      ending.1 ≡ ok out → (b ≡ false) × (rest.1 ≡ ok out)
gate true e st rest out h = cc
gate false e st rest out h = (refl, h)

not-false : (b : Bool) → not b ≡ false → b ≡ true
not-false true h = refl
not-false false h = cc

verified_factor {ℓ} : {A B C : Type ℓ} → A ⊎ B → A ⊎ (B ⊎ C)
verified_factor (inl off) = inl off
verified_factor (inr verified) = inr (inl verified)

module _ (verify_password verify_totp : String → String → Bool)
    (hash_token lower strip : String → String) where
  second_factor_passed :
      (settings : Settings) (a : Account) (body : LoginRequest) (now : ℕ)
      → (second_factor verify_password verify_totp hash_token lower strip settings a body now).1
        ≡ ok tt
      → (a.mfa_enabled ≡ false)
        ⊎ (verify_code verify_password verify_totp hash_token lower strip a.mfa_secret body.mfa_code
            ≡ true)
  unfolding second_factor
  second_factor_passed settings a body now h = ends_well a.mfa_enabled _ _ a _ _ h

  -- What a login has met by the time it succeeds.
  pub record Proven (a : Account) (st : State) (body : LoginRequest) (now : ℕ) : Type 0 where
    pub known : find_row (λ (x : Account). text_eq x.email (lower body.email)) st.accounts ≡ some a
    pub unlocked : is_locked a now ≡ false
    pub password : verify_password body.password a.hashed_password ≡ true
    pub active : a.user.is_active ≡ true
    pub organization : organization_active st.db a.user ≡ true
    pub factor :
        (a.mfa_enabled ≡ false)
        ⊎ ((verify_code verify_password verify_totp hash_token lower strip a.mfa_secret
                body.mfa_code
              ≡ true)
            ⊎ ((consume verify_password verify_totp hash_token lower strip a body.recovery_code).1
                ≡ true))

  finish_ends_well :
      (settings : Settings) (st : State) (a : Account) (body : LoginRequest)
      (session_id refresh : String) (now : ℕ) (out : AccessClaims × String)
      → (finish_login verify_password verify_totp hash_token lower strip settings st a body
          session_id refresh now).1
        ≡ ok out
      → (a.mfa_enabled ≡ false)
        ⊎ (verify_code verify_password verify_totp hash_token lower strip a.mfa_secret body.mfa_code
            ≡ true)
  unfolding finish_login
  finish_ends_well settings st a body session_id refresh now out h =
      elim (Result-cases
        (second_factor verify_password verify_totp hash_token lower strip settings a body now).1) [
          | inl (done, e) ↦ second_factor_passed settings a body now e
          | inr (x, e) ↦ let h1 = rw (e, finish_login) at h in cc
        ]

  known_ends_well :
      (settings : Settings) (st : State) (a : Account) (body : LoginRequest)
      (session_id refresh : String) (now : ℕ) (out : AccessClaims × String)
      → (login_known verify_password verify_totp hash_token lower strip settings st a body
          session_id refresh now).1
        ≡ ok out
      → (a.user.is_active ≡ true)
        × (organization_active st.db a.user ≡ true)
        × ((a.mfa_enabled ≡ false)
            ⊎ (verify_code verify_password verify_totp hash_token lower strip a.mfa_secret
                  body.mfa_code
                ≡ true))
  unfolding login_known
  known_ends_well settings st a body session_id refresh now out h =
      let rest =
        finish_login verify_password verify_totp hash_token lower strip settings st a body
          session_id refresh now in
      let (on, h1) =
        gate (not a.user.is_active) disabled st
          (if not (organization_active st.db a.user) then (st, err suspended) else rest) out h in
      let (opened, h2) = gate (not (organization_active st.db a.user)) suspended st rest out h1 in
      (
        not-false _ on,
        not-false _ opened,
        finish_ends_well settings st a body session_id refresh now out h2,
      )

  -- A login that succeeds was for a known address whose account was not locked, with its password, an
  -- active user of an active organization and, under multi-factor authentication, a TOTP code that was
  -- verified or a recovery code that the account holds.
  pub login-Proven :
      (settings : Settings) (st : State) (body : LoginRequest) (session_id refresh : String)
      (now : ℕ) (out : AccessClaims × String)
      → (login verify_password verify_totp hash_token lower strip settings st body session_id
          refresh now).1
        ≡ ok out
      → (a : Account) × Proven a st body now
  unfolding login
  login-Proven settings st body session_id refresh now out h =
      elim (Option-cases
        (find_row (λ (x : Account). text_eq x.email (lower body.email)) st.accounts)) [
          | inl missing ↦ let h1 = rw (missing, login) at h in cc
          | inr (a, found) ↦
              let h1 = rw (found, login) at h in
              let rest =
                login_known verify_password verify_totp hash_token lower strip settings st a body
                  session_id refresh now in
              let failed = record st {
                accounts = store st.accounts (register_failed_login settings a now);
              } in
              let (unlocked, h2) =
                gate (is_locked a now) locked st
                  (if not (verify_password body.password a.hashed_password)
                    then (failed, err incorrect)
                    else rest)
                  out h1 in
              let (right, h3) =
                gate (not (verify_password body.password a.hashed_password)) incorrect failed rest
                  out h2 in
              let (on, opened, totp) =
                known_ends_well settings st a body session_id refresh now out h3 in
              (
                a,
                record {
                  known = found;
                  unlocked = unlocked;
                  password = not-false _ right;
                  active = on;
                  organization = opened;
                  factor = verified_factor totp;
                },
              )
        ]
