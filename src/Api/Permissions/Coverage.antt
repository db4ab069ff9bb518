-- ===== src/Api/Permissions/Coverage.antt =====
-- The permissions that are uploaded to a board, against what the server itself decides
-- (backend/app/services/access_engine.py).
use cerradura_magnetica.Prelude.{
  ℕ, ◌≤◌, ◌≡◌, sym, ap, ◌∙◌, Bool, true, String, List, [], ◌∷◌, Option, some, arith, ◌==◌,
  Bool-cases, inl, inr, select, find_row, find_row-holds, row_count, exists_row,
}
use cerradura_magnetica.Models.Gateway.{Door, controlled}
use cerradura_magnetica.Models.Access.{Credential, DoorRule}
use cerradura_magnetica.Access.{Directory, LocalTime, same_codes, door_rules, card_is}
use cerradura_magnetica.Access.Decision.{evaluate_access}
use cerradura_magnetica.Access.Policy.{evaluate_access_granted}
use cerradura_magnetica.Api.Permissions.{
  board_door, rules_in, access_levels, is_current, permission_cards,
}
use cerradura_magnetica.Api.Permissions.Upload.{
  lets, board_numbers-listed, rules_of-rules_in, collect-lets,
}

module _ (p q r : Credential → Bool)
    (both : (x : Credential) → p x ≡ true → q x ≡ true → r x ≡ true) where
  -- What is found under `r`, and meets `p` and `q`, is found under `q` among those under `p`.
  find_row-select :
      (xs : List Credential) {c : Credential}
      → find_row r xs ≡ some c
      → p c ≡ true
      → q c ≡ true
      → find_row q (select p xs) ≡ some c
  find_row-select [] h kept named = cc
  find_row-select (x ∷ xs) {c} h kept named = elim (Bool-cases (r x)) [
    | inl hit ↦
        let first : some x ≡ some c = rw hit at h in
        let same : x ≡ c = cc in rw (ap p same ∙ kept) (rw (ap q same ∙ named) first)
    | inr miss ↦
        let later = find_row-select xs (rw miss at h) kept named in
        elim (Bool-cases (p x)) [
          | inr out ↦ rw out later
          | inl kept_x ↦ rw kept_x (elim (Bool-cases (q x)) [
            | inl named_x ↦ let clash = both x kept_x named_x in cc
            | inr other ↦ rw other later
          ])
        ]
  ]

  row_count-select_both : (xs : List Credential) → row_count q (select p xs) ≤ row_count r xs
  row_count-select_both [] = omega arith
  row_count-select_both (x ∷ xs) =
      let rest = row_count-select_both xs in
      elim (Bool-cases (p x)) [
        | inr out ↦ rw out (ground (arith, rest))
        | inl kept ↦ rw kept (elim (Bool-cases (q x)) [
          | inr other ↦ rw other (ground (arith, rest))
          | inl named ↦ rw (named, both x kept named) (omega (arith, rest))
        ])
      ]

current_named :
    (org : ℕ) (number : List ℕ) (x : Credential)
    → is_current org x ≡ true
    → same_codes x.card_number number ≡ true
    → card_is org number x ≡ true
current_named org number x h k = ground (arith, h, k)

module _ (is_digit : ℕ → Bool) (zone : String → ℕ → Option LocalTime) (utc : ℕ → LocalTime) where
  -- What the server's decision says of the credential behind a card.
  granted_holder :
      (db : Directory) (org : ℕ) (door : Door) (timezone : Option String) (code : Option (List ℕ))
      (now : ℕ) (number : List ℕ) (c : Credential)
      → (evaluate_access is_digit zone utc db org door timezone number code now).granted ≡ true
      → door.mode ≡ controlled
      → find_row (card_is org number) db.credentials ≡ some c
      → (c.is_active ≡ true)
        × (c.cardholder.is_active ≡ true)
        × (exists_row
              (λ (r : DoorRule). r.door_id == door.id)
              (rules_in (access_levels db.levels c.cardholder))
            ≡ true)
  unfolding door_rules
  granted_holder db org door timezone code now number c granted mode found =
      let (c', proven, how, k) =
        (evaluate_access_granted is_digit zone utc db org door timezone number code now).0
          granted in
      elim how [
        | inr (absent, keypad, yes_pin) ↦ cc
        | inl (found', plain) ↦
            let one : some c' ≡ some c = sym found' ∙ found in
            let same : c' ≡ c = cc in
            elim k.door_open [
              | inl always ↦ cc
              | inr (_, rule) ↦ rw (← same) (
                k.active,
                k.holder_active,
                rules_of-rules_in _ c'.cardholder org door.id db.levels rule,
              )
            ]
      ]

  -- If the server grants a swipe of a card at a controlled door of a board, at any time, the upload of
  -- permissions to that board has an entry for the card with the door's number. The card stands for a
  -- credential of its own number, which the organization has once, and not for a PIN from the keypad.
  pub permission_cards-cover :
      (db : Directory) (doors : List Door) (org : ℕ) (door : Door) (timezone : Option String)
      (code : Option (List ℕ)) (now : ℕ) (number : List ℕ) (c : Credential)
      → (evaluate_access is_digit zone utc db org door timezone number code now).granted ≡ true
      → door.mode ≡ controlled
      → find_row (card_is org number) db.credentials ≡ some c
      → row_count (card_is org number) db.credentials ≤ 1
      → board_door (select (λ (d : Door). d.controller_id == door.controller_id) doors) door.id
        ≡ some door
      → exists_row (lets number door.number) (permission_cards doors db org door.controller_id)
        ≡ true
  unfolding permission_cards
  permission_cards-cover db doors org door timezone code now number c granted mode found key mine =
      let (active, on, rule) =
        granted_holder db org door timezone code now number c granted mode found in
      let board = select (λ (d : Door). d.controller_id == door.controller_id) doors in
      let is_c = find_row-holds (card_is org number) db.credentials found in
      let current : is_current org c ≡ true = ground (arith, is_c, active) in
      let named : same_codes c.card_number number ≡ true = ground (arith, is_c) in
      let fewer =
        row_count-select_both (is_current org) (λ x. same_codes x.card_number number)
          (card_is org number) (current_named org number) db.credentials in
      collect-lets board db.levels number door.number (select (is_current org) db.credentials) [] c
        (omega (arith, fewer, key))
        (find_row-select (is_current org) (λ x. same_codes x.card_number number)
          (card_is org number) (current_named org number) db.credentials found current named)
        on
        (board_numbers-listed board door (rules_in (access_levels db.levels c.cardholder)) mine
          rule)
