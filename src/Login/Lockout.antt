-- ===== src/Login/Lockout.antt =====
-- Logins with a wrong password, one after another, lock the account.
use cerradura_magnetica.Prelude.{
  ℕ, suc, ◌+◌, ◌<◌, ◌≡◌, refl, ap, ◌∙◌, sym, subst, find_row-holds, All-imp, Result, Bool,
  Bool-cases, inl, inr, ◌==◌, ==_iff, All, refl, true, false, String, text_eq, List, [], ◌∷◌, ◌++◌,
  some, err, arith, leb, length, find_row, lt→ltb,
}
use cerradura_magnetica.Sessions.{AccessClaims}
use cerradura_magnetica.Login.{
  Account, LoginRequest, LoginError, incorrect, locked, State, Settings, store, is_locked,
  register_failed_login, login,
}

below_limit :
    (settings : Settings) (a : Account) (now : ℕ)
    → a.failed_login_count + 1 < settings.max_attempts
    → register_failed_login settings a now
      ≡ record a { failed_login_count = a.failed_login_count + 1 }
unfolding register_failed_login
below_limit settings a now h =
    let short : leb settings.max_attempts (a.failed_login_count + 1) ≡ false = ground arith in
    rw (short, register_failed_login) refl

at_limit :
    (settings : Settings) (a : Account) (now : ℕ)
    → a.failed_login_count + 1 ≡ settings.max_attempts
    → register_failed_login settings a now
      ≡ record a { locked_until = some (now + settings.lockout); failed_login_count = 0 }
unfolding register_failed_login
at_limit settings a now h =
    let full : leb settings.max_attempts (a.failed_login_count + 1) ≡ true = ground arith in
    rw (full, register_failed_login) refl

register_failed_login_identity :
    (settings : Settings) (a : Account) (now : ℕ)
    → ((register_failed_login settings a now).user.id ≡ a.user.id)
      × ((register_failed_login settings a now).email ≡ a.email)
unfolding register_failed_login
register_failed_login_identity settings a now =
    elim (Bool-cases (leb settings.max_attempts (a.failed_login_count + 1))) [
      | inl full ↦ rw (full, register_failed_login) (refl, refl)
      | inr short ↦ rw (short, register_failed_login) (refl, refl)
    ]

-- The row that a store leaves under an address is the stored one.
find_row-store :
    (p : Account → Bool) (b : Account) (accounts : List Account) {a : Account}
    → b.user.id ≡ a.user.id
    → p b ≡ true
    → find_row p accounts ≡ some a
    → find_row p (store accounts b) ≡ some b
find_row-store p b [] same meets h = cc
find_row-store p b (x ∷ xs) {a} same meets h = elim (Bool-cases (x.user.id == b.user.id)) [
  | inl hit ↦ rw hit (rw meets refl)
  | inr miss ↦ elim (Bool-cases (p x)) [
    | inr other ↦ rw miss (rw other (find_row-store p b xs same meets (rw other at h)))
    | inl first ↦
        let found : some x ≡ some a = rw first at h in
        let equal : x ≡ a = cc in
        let own : x.user.id ≡ b.user.id = ap (λ (y : Account). y.user.id) equal ∙ sym same in
        let clash : (x.user.id == b.user.id) ≡ true = (==_iff x.user.id b.user.id).1 own in
        let absurdity : false ≡ true = rw miss at clash in cc
  ]
]

pub record Attempt : Type 0 where
  pub body : LoginRequest
  pub session_id : String
  pub refresh : String
  pub now : ℕ

module _ (verify_password verify_totp : String → String → Bool)
    (hash_token lower strip : String → String) (settings : Settings) where
  -- One login, and logins one after another: what they leave.
  unfoldable pub after : State → Attempt → State
  unfolding login
  after st t =
      (login verify_password verify_totp hash_token lower strip settings st t.body t.session_id
        t.refresh t.now).0

  unfoldable pub after_all : State → List Attempt → State
  unfolding after
  after_all st [] = st
  after_all st (t ∷ ts) = after_all (after st t) ts

  abbrev pub at_address : String → Account → Bool
  at_address email x = text_eq x.email email

  -- A login to the address with a password that is not the account's, at a time when it is not locked.
  pub record IsWrong (email : String) (a : Account) (t : Attempt) : Type 0 where
    pub address : lower t.body.email ≡ email
    pub password : verify_password t.body.password a.hashed_password ≡ false
    pub unlocked : is_locked a t.now ≡ false

  refused :
      (st : State) (b : Account) (body : LoginRequest) (session_id refresh : String) (now : ℕ)
      → find_row (at_address (lower body.email)) st.accounts ≡ some b
      → is_locked b now ≡ true
      → login verify_password verify_totp hash_token lower strip settings st body session_id refresh
          now
        ≡ (st, err locked)
  unfolding login
  refused st b body session_id refresh now found shut = rw (found, login) (rw shut refl)

  login_wrong :
      (st : State) (a : Account) (t : Attempt)
      → find_row (at_address (lower t.body.email)) st.accounts ≡ some a
      → IsWrong (lower t.body.email) a t
      → login verify_password verify_totp hash_token lower strip settings st t.body t.session_id
          t.refresh t.now
        ≡ (
          record st { accounts = store st.accounts (register_failed_login settings a t.now) },
          err incorrect,
        )
  unfolding login
  login_wrong st a t found wrong =
      let open' = wrong.unlocked in
      let bad = wrong.password in rw (found, login) (rw open' (rw bad refl))

  wrong_login :
      (st : State) (email : String) (a : Account) (t : Attempt)
      → find_row (at_address email) st.accounts ≡ some a
      → IsWrong email a t
      → find_row (at_address email) (after st t).accounts
        ≡ some (register_failed_login settings a t.now)
  unfolding after
  wrong_login st email a t found wrong =
      let here = sym wrong.address in
      let left =
        login_wrong st a t (subst (λ e. find_row (at_address e) st.accounts ≡ some a) here found)
          (subst (λ e. IsWrong e a t) here wrong) in
      let (user, address) = register_failed_login_identity settings a t.now in
      let meets = find_row-holds (at_address email) st.accounts found in
      ap
        (λ (o : State × Result LoginError (AccessClaims × String)).
          find_row (at_address email) o.0.accounts)
        left
      ∙ find_row-store (at_address email) (register_failed_login settings a t.now) st.accounts user
          (ap (λ e. text_eq e email) address ∙ meets) found

  counted :
      (ts : List Attempt) (st : State) (email : String) (a : Account)
      → find_row (at_address email) st.accounts ≡ some a
      → All (IsWrong email a) ts
      → a.failed_login_count + length ts < settings.max_attempts
      → find_row (at_address email) (after_all st ts).accounts
        ≡ some (record a { failed_login_count = a.failed_login_count + length ts })
  unfolding after_all
  counted [] st email a found wrong h =
      let same : a.failed_login_count ≡ a.failed_login_count + 0 = omega arith in
      found ∙ ap (λ n. some (record a { failed_login_count = n })) same
  counted (t ∷ ts) st email a found wrong h =
      let next = record a { failed_login_count = a.failed_login_count + 1 } in
      let counted_one =
        wrong_login st email a t found wrong.0
        ∙ ap some (below_limit settings a t.now (omega (arith, h))) in
      let rest : All (IsWrong email next) ts =
        All-imp (IsWrong email a) (IsWrong email next) ts
          (λ u k. record { address = k.address; password = k.password; unlocked = k.unlocked })
          wrong.1 in
      let same : (a.failed_login_count + 1) + length ts ≡ a.failed_login_count + suc (length ts) =
        omega arith in
      counted ts (after st t) email next counted_one rest (omega (arith, h))
      ∙ ap (λ n. some (record a { failed_login_count = n })) same

  after_all-append :
      (st : State) (ts : List Attempt) (last : Attempt)
      → after_all st (ts ++ last ∷ []) ≡ after (after_all st ts) last
  unfolding after_all
  after_all-append st [] last = refl
  after_all-append st (t ∷ ts) last = after_all-append (after st t) ts last

  -- Logins to an address one after another, each with a wrong password and while the account is not
  -- locked, are counted on its row, which they leave as it was but for the count, while they are fewer
  -- than the limit. The one that reaches the limit locks the account until the lock-out has passed and starts
  -- the count again; until then the next login to the address, whatever it presents, is refused and
  -- changes nothing.
  pub lockout_holds :
      (st : State) (email : String) (a : Account) (ts : List Attempt) (last : Attempt)
      (body : LoginRequest) (session_id refresh : String) (now : ℕ)
      → find_row (at_address email) st.accounts ≡ some a
      → All (IsWrong email a) ts
      → IsWrong email a last
      → a.failed_login_count + suc (length ts) ≡ settings.max_attempts
      → lower body.email ≡ email
      → now < last.now + settings.lockout
      → let locked_state = after_all st (ts ++ last ∷ []) in
        (find_row (at_address email) (after_all st ts).accounts
          ≡ some (record a { failed_login_count = a.failed_login_count + length ts }))
        × (find_row (at_address email) locked_state.accounts
            ≡ some (record a {
              locked_until = some (last.now + settings.lockout);
              failed_login_count = 0;
            }))
        × (login verify_password verify_totp hash_token lower strip settings locked_state body
              session_id refresh now
            ≡ (locked_state, err locked))
  lockout_holds st email a ts last body session_id refresh now found wrong wrong_last h address
        early =
      let before = counted ts st email a found wrong (omega (arith, h)) in
      let full = record a { failed_login_count = a.failed_login_count + length ts } in
      let reached =
        ap (λ (s : State). find_row (at_address email) s.accounts) (after_all-append st ts last)
        ∙ wrong_login (after_all st ts) email full last before (record {
          address = wrong_last.address;
          password = wrong_last.password;
          unlocked = wrong_last.unlocked;
        })
        ∙ ap some (at_limit settings full last.now (omega (arith, h))) in
      (
        before,
        reached,
        refused (after_all st (ts ++ last ∷ []))
            (record a { locked_until = some (last.now + settings.lockout); failed_login_count = 0 })
            body session_id refresh now
            (subst
              (λ e.
                find_row (at_address e) (after_all st (ts ++ last ∷ [])).accounts
                ≡ some (record a {
                  locked_until = some (last.now + settings.lockout);
                  failed_login_count = 0;
                }))
              (sym address) reached)
            (lt→ltb now (last.now + settings.lockout) early),
      )
