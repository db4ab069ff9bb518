-- ===== src/Mfa/Recovery.antt =====
-- The recovery codes that `mfa_enable` hands out: each of them is good for `consume` once.
use cerradura_magnetica.Prelude.{
  ◌≡◌, refl, sym, ◌∙◌, Bool, true, false, not, String, text_eq, text_eq_iff, text_eq_refl, List, [],
  ◌∷◌, map, some, ok, arith, Bool-cases, inl, inr, select, exists_row,
}
use cerradura_magnetica.Login.{Account, in_list, consume}
use cerradura_magnetica.Mfa.{MfaReply, codes_reply, generate, mfa_enable}

in_list-map :
    (f : String → String) (c : String) (xs : List String)
    → exists_row (λ x. text_eq x c) xs ≡ true
    → in_list (f c) (map f xs) ≡ true
in_list-map f c [] h = cc
in_list-map f c (x ∷ xs) h = elim (Bool-cases (text_eq x c)) [
  | inl hit ↦
      let same : text_eq (f x) (f c) ≡ true = rw ((text_eq_iff x c).0 hit) (text_eq_refl (f c)) in
      rw same refl
  | inr miss ↦ ground (arith, in_list-map f c xs)
]

in_list-select :
    (t : String) (xs : List String) → in_list t (select (λ h. not (text_eq h t)) xs) ≡ false
in_list-select t [] = refl
in_list-select t (x ∷ xs) = ground (arith, in_list-select t xs)

in_list-select_ne :
    (t u : String) (xs : List String)
    → text_eq t u ≡ false
    → in_list u (select (λ h. not (text_eq h t)) xs) ≡ in_list u xs
in_list-select_ne t u [] ne = refl
in_list-select_ne t u (x ∷ xs) ne = elim (Bool-cases (text_eq x t)) [
  | inl hit ↦
      let other : text_eq x u ≡ false = rw ((text_eq_iff x t).0 hit) ne in
      rw (hit, other, in_list-select_ne t u xs ne) refl
  | inr miss ↦ rw (miss, in_list-select_ne t u xs ne) refl
]

module _ (verify_password verify_totp : String → String → Bool)
    (hash_token lower strip : String → String) where
  consume_known :
      (a : Account) (c : String)
      → text_eq c "" ≡ false
      → strip c ≡ c
      → in_list (hash_token c) a.mfa_recovery_hashes ≡ true
      → consume verify_password verify_totp hash_token lower strip a (some c) ≡ (
        record a {
          mfa_recovery_hashes = select (λ h. not (text_eq h (hash_token c))) a.mfa_recovery_hashes;
        },
        true,
      )
  unfolding consume
  consume_known a c filled plain h = rw (filled, plain, h) refl

  consume-in_list :
      (a : Account) (c : String)
      → text_eq c "" ≡ false
      → strip c ≡ c
      → (consume verify_password verify_totp hash_token lower strip a (some c)).1
        ≡ in_list (hash_token c) a.mfa_recovery_hashes
  unfolding consume
  consume-in_list a c filled plain = rw (filled, plain) (ground arith)

  mfa_enable-eq-ok :
      (user : Account) (code : String) (drawn : List String) (reply : MfaReply)
      → let r = mfa_enable verify_password verify_totp hash_token lower strip user code drawn in
        r.1 ≡ ok reply
        → (reply ≡ codes_reply drawn)
          × (r.0 ≡ record user { mfa_enabled = true; mfa_recovery_hashes = map hash_token drawn })
  unfolding mfa_enable generate
  mfa_enable-eq-ok user code drawn reply h = ground arith

  -- After `mfa_enable` has succeeded and handed out its codes, `consume` takes any of those codes, where it
  -- is not empty and has no blanks around it. It does not take the same code a second time, and whether it
  -- takes a code of another hash is as it was before.
  pub consume-mfa_enable :
      (user : Account) (code : String) (drawn : List String) (reply : MfaReply) (c other : String)
      → let r = mfa_enable verify_password verify_totp hash_token lower strip user code drawn in
        let use_code = consume verify_password verify_totp hash_token lower strip in
        r.1 ≡ ok reply
        → exists_row (λ x. text_eq x c) drawn ≡ true
        → text_eq c "" ≡ false
        → strip c ≡ c
        → text_eq other "" ≡ false
        → strip other ≡ other
        → text_eq (hash_token c) (hash_token other) ≡ false
        → (reply ≡ codes_reply drawn)
          × ((use_code r.0 (some c)).1 ≡ true)
          × ((use_code (use_code r.0 (some c)).0 (some c)).1 ≡ false)
          × ((use_code (use_code r.0 (some c)).0 (some other)).1 ≡ (use_code r.0 (some other)).1)
  consume-mfa_enable user code drawn reply c other h drawn_one filled plain filled2 plain2 ne =
      let (replied, row) = mfa_enable-eq-ok user code drawn reply h in
      let b : Account = record user {
        mfa_enabled = true;
        mfa_recovery_hashes = map hash_token drawn;
      } in
      let held : in_list (hash_token c) b.mfa_recovery_hashes ≡ true =
        in_list-map hash_token c drawn drawn_one in
      let used = consume_known b c filled plain held in
      (
        replied,
        rw (row, used) refl,
        rw (row, used)
            (consume-in_list _ c filled plain
              ∙ in_list-select (hash_token c) (map hash_token drawn)),
        rw (row, used)
            (consume-in_list _ other filled2 plain2
              ∙ in_list-select_ne (hash_token c) (hash_token other) (map hash_token drawn) ne
              ∙ sym (consume-in_list b other filled2 plain2)),
      )
