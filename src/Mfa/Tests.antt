-- ===== src/Mfa/Tests.antt =====
-- One account that switches multi-factor authentication on. The password check is equality, the code is
-- "123456", and the hash and `strip` change nothing.
use cerradura_magnetica.Prelude.{
  refl, ℕ, Bool, true, false, String, text_eq, List, [], ◌∷◌, none, some, ◌≡◌,
}
use cerradura_magnetica.Models.Auth.{operator}
use cerradura_magnetica.Login.{Account, verify_code, consume}
use cerradura_magnetica.Mfa.{
  MfaRequest, setup, regenerate, disable, serve_all, codes_reply, mfa_enable, generate,
}
use cerradura_magnetica.Mfa.Kept.{IsOn, mfa_kept}
use cerradura_magnetica.Mfa.Recovery.{consume-mfa_enable}

abbrev same : String → String
same s = s

abbrev right_code : String → String → Bool
right_code secret code = text_eq code "123456"

abbrev account : Account
account = record {
  user = record { id = 7; organization_id = none; role = operator; is_active = true };
  email = "a@b";
  hashed_password = "pw";
  failed_login_count = 0;
  locked_until = none;
  mfa_enabled = false;
  mfa_secret = some "k";
  mfa_recovery_hashes = [];
}

abbrev enabled : Account
enabled = record account { mfa_enabled = true }

-- A wrong code, a wrong password, a new enrolment, and another user who switches his factor off.
abbrev attempts : List (ℕ × MfaRequest)
attempts =
    (7, disable "pw" "000000")
    ∷ (7, disable "guess" "123456")
    ∷ (7, setup "mine")
    ∷ (8, disable "pw" "123456")
    ∷ (7, regenerate "pw" "123456" ("r9" ∷ []))
    ∷ []

abbrev other_user : Account
other_user = record enabled {
  user = record { id = 8; organization_id = none; role = operator; is_active = true };
}

mfa_kept_example :
    IsOn text_eq right_code same same same
      (serve_all text_eq right_code same same same (other_user ∷ enabled ∷ []) attempts)
      7
      enabled
unfolding verify_code
mfa_kept_example =
    mfa_kept text_eq right_code same same same (other_user ∷ enabled ∷ []) 7 enabled attempts refl
      refl (λ h. refl, (λ h. refl, (λ h. refl, (λ h. cc, (λ h. refl, tt)))))
      (record { row = enabled; found = refl; kept = (refl, refl, refl, refl) })

consume-mfa_enable_example :
    let r = mfa_enable text_eq right_code same same same account "123456" ("r1" ∷ "r2" ∷ []) in
    let use_code = consume text_eq right_code same same same in
    (codes_reply ("r1" ∷ "r2" ∷ []) ≡ codes_reply ("r1" ∷ "r2" ∷ []))
    × ((use_code r.0 (some "r2")).1 ≡ true)
    × ((use_code (use_code r.0 (some "r2")).0 (some "r2")).1 ≡ false)
    × ((use_code (use_code r.0 (some "r2")).0 (some "r1")).1 ≡ (use_code r.0 (some "r1")).1)
unfolding mfa_enable verify_code generate
consume-mfa_enable_example =
    consume-mfa_enable text_eq right_code same same same account "123456" ("r1" ∷ "r2" ∷ [])
      (codes_reply ("r1" ∷ "r2" ∷ [])) "r2" "r1" refl refl refl refl refl refl refl
