-- ===== src/Api/Permissions/Upload.antt =====
-- What the loop of sync_controller_permissions (backend/app/api/v1/controllers.py) keeps of one card.
use cerradura_magnetica.Prelude.{
  ℕ, suc, ◌≤◌, ◌≡◌, ◌⊎◌, refl, sym, subst, Bool, true, false, ◌&&◌, ◌||◌, List, [], ◌∷◌, ◌++◌, some,
  arith, ◌==◌, ==_iff, if◌then◌else◌, Bool-cases, Option-cases, inl, inr, select, find_row,
  row_count, exists_row, ltb,
}
use cerradura_magnetica.Models.Gateway.{Door, PermissionCard}
use cerradura_magnetica.Models.Access.{Cardholder, Credential, DoorRule, AccessLevel}
use cerradura_magnetica.Access.{same_codes, same_codes-eq, listed, rules_of}
use cerradura_magnetica.Access.Policy.{Some}
use cerradura_magnetica.Api.Permissions.{
  insert_number, board_door, board_numbers, rules_in, access_levels, doors_of, permission, put_card,
  add_permission, collect,
}

-- An entry for the card that lets it through the door of the number.
abbrev pub lets : List ℕ → ℕ → PermissionCard → Bool
lets card_number n k = same_codes k.card_number card_number && listed k.doors n

listed-insert_number :
    (n m : ℕ) (xs : List ℕ) → listed (insert_number n xs) m ≡ (n == m || listed xs m)
listed-insert_number n m [] = refl
listed-insert_number n m (x ∷ xs) = elim (Bool-cases (n == x)) [
  | inl same ↦ let e : n ≡ x = (==_iff n x).0 same in rw (same, e) (ground arith)
  | inr other ↦ rw other (elim (Bool-cases (ltb n x)) [
    | inl below ↦ rw below refl
    | inr above ↦ rw (above, listed-insert_number n m xs) (ground arith)
  ])
]

pub board_numbers-listed :
    (doors : List Door) (d : Door) (rules : List DoorRule)
    → board_door doors d.id ≡ some d
    → exists_row (λ (r : DoorRule). r.door_id == d.id) rules ≡ true
    → listed (board_numbers doors rules) d.number ≡ true
board_numbers-listed doors d [] found h = cc
board_numbers-listed doors d (r ∷ rs) found h = elim (Bool-cases (r.door_id == d.id)) [
  | inl hit ↦
      let same : r.door_id ≡ d.id = (==_iff r.door_id d.id).0 hit in
      let self : (d.number == d.number) ≡ true = (==_iff d.number d.number).1 refl in
      let here : find_row (λ (x : Door). x.id == r.door_id) doors ≡ some d =
        subst (λ k. board_door doors k ≡ some d) (sym same) found in
      rw
        (here, board_numbers, listed-insert_number d.number d.number (board_numbers doors rs), self)
        refl
  | inr miss ↦
      let later = board_numbers-listed doors d rs found (rw miss at h) in
      elim (Option-cases (board_door doors r.door_id)) [
        | inl absent ↦ rw (absent, board_numbers) later
        | inr (e, hit) ↦
            rw
              (
                hit,
                board_numbers,
                listed-insert_number e.number d.number (board_numbers doors rs),
                later,
              )
              (ground arith)
      ]
]

Some-append :
    (P : DoorRule → Type 0) (xs ys : List DoorRule) → Some P (xs ++ ys) → Some P xs ⊎ Some P ys
Some-append P [] ys h = inr h
Some-append P (x ∷ xs) ys (inl h) = inl (inl h)
Some-append P (x ∷ xs) ys (inr h) = elim (Some-append P xs ys h) [
  | inl here ↦ inl (inr here)
  | inr there ↦ inr there
]

Some-select :
    (P : DoorRule → Type 0) (q : DoorRule → Bool) (xs : List DoorRule)
    → Some P (select q xs)
    → exists_row q xs ≡ true
Some-select P q [] h = cc
Some-select P q (x ∷ xs) h = elim (Bool-cases (q x)) [
  | inl hit ↦ rw hit refl
  | inr miss ↦ rw miss (Some-select P q xs (rw miss at h))
]

exists_row-append :
    (q : DoorRule → Bool) (xs ys : List DoorRule)
    → exists_row q (xs ++ ys) ≡ (exists_row q xs || exists_row q ys)
exists_row-append q [] ys = refl
exists_row-append q (x ∷ xs) ys = rw (exists_row-append q xs ys) (ground arith)

-- A rule for the door in a level of the holder's.
pub rules_of-rules_in :
    (P : DoorRule → Type 0) (holder : Cardholder) (org id : ℕ) (levels : List AccessLevel)
    → Some P (
        rules_of
          (select
            (λ (l : AccessLevel). listed l.cardholder_ids holder.id && l.organization_id == org)
            levels)
          id)
    → exists_row (λ (r : DoorRule). r.door_id == id) (rules_in (access_levels levels holder)) ≡ true
rules_of-rules_in P holder org id [] h = cc
rules_of-rules_in P holder org id (l ∷ ls) h =
    elim (Bool-cases (listed l.cardholder_ids holder.id)) [
      | inr other ↦ rw other (rules_of-rules_in P holder org id ls (rw other at h))
      | inl mine ↦ elim (Bool-cases (l.organization_id == org)) [
        | inr foreign ↦
            let later = rules_of-rules_in P holder org id ls (rw (mine, foreign) at h) in
            rw
              (
                mine,
                exists_row-append (λ r. r.door_id == id) l.door_rules
                    (rules_in (access_levels ls holder)),
                later,
              )
              (ground arith)
        | inl own ↦
            let either = Some-append P _ _ (rw (mine, own) at h) in
            rw
              (
                mine,
                exists_row-append (λ r. r.door_id == id) l.door_rules
                    (rules_in (access_levels ls holder)),
              )
              (elim either [
                | inl first ↦
                    rw (Some-select P (λ (r : DoorRule). r.door_id == id) l.door_rules first) refl
                | inr later ↦ rw (rules_of-rules_in P holder org id ls later) (ground arith)
              ])
      ]
    ]

put_card_self :
    (p : PermissionCard → Bool) (k : PermissionCard) (cards : List PermissionCard)
    → p k ≡ true
    → exists_row p (put_card k cards) ≡ true
put_card_self p k [] h = rw h refl
put_card_self p k (x ∷ xs) h = elim (Bool-cases (same_codes x.card_number k.card_number)) [
  | inl same ↦ rw (same, h) refl
  | inr other ↦ rw (other, put_card_self p k xs h) (ground arith)
]

-- A card of another number leaves an entry where it is.
put_card-other :
    (number : List ℕ) (n : ℕ) (k : PermissionCard) (cards : List PermissionCard)
    → same_codes k.card_number number ≡ false
    → exists_row (lets number n) cards ≡ true
    → exists_row (lets number n) (put_card k cards) ≡ true
put_card-other number n k [] ne h = cc
put_card-other number n k (x ∷ xs) ne h =
    elim (Bool-cases (same_codes x.card_number k.card_number)) [
      | inl same ↦
          let e = same_codes-eq x.card_number k.card_number same in
          let skip : lets number n x ≡ false = rw (e, ne) refl in
          let later : exists_row (lets number n) xs ≡ true = rw skip at h in
          rw (same, ne, later) refl
      | inr other ↦ rw other (elim (Bool-cases (lets number n x)) [
        | inl hit ↦ rw hit refl
        | inr miss ↦ rw (put_card-other number n k xs ne (rw miss at h)) (ground arith)
      ])
    ]

module _ (doors : List Door) (levels : List AccessLevel) (number : List ℕ) (n : ℕ) where
  -- What one round of the loop does to the cards.
  abbrev one_round : Credential → List PermissionCard → List PermissionCard
  one_round c cards =
      if c.cardholder.is_active
      then add_permission c (doors_of doors levels c.cardholder) cards
      else cards

  add_permission-listed :
      (c : Credential) (ns : List ℕ) (cards : List PermissionCard)
      → listed ns n ≡ true
      → same_codes c.card_number number ≡ true
      → exists_row (lets number n) (add_permission c ns cards) ≡ true
  add_permission-listed c [] cards h e = cc
  add_permission-listed c (m ∷ ms) cards h e =
      put_card_self (lets number n) (permission c (m ∷ ms)) cards (rw (e, h) refl)

  add_permission-other :
      (c : Credential) (ns : List ℕ) (cards : List PermissionCard)
      → same_codes c.card_number number ≡ false
      → exists_row (lets number n) cards ≡ true
      → exists_row (lets number n) (add_permission c ns cards) ≡ true
  add_permission-other c [] cards ne h = h
  add_permission-other c (m ∷ ms) cards ne h =
      put_card-other number n (permission c (m ∷ ms)) cards ne h

  collect-kept :
      (creds : List Credential) (cards : List PermissionCard)
      → row_count (λ (c : Credential). same_codes c.card_number number) creds ≡ 0
      → exists_row (lets number n) cards ≡ true
      → exists_row (lets number n) (collect doors levels creds cards) ≡ true
  unfolding collect
  collect-kept [] cards none_left h = h
  collect-kept (c ∷ cs) cards none_left h = elim (Bool-cases (same_codes c.card_number number)) [
    | inl same ↦ let k = rw same at none_left in cc
    | inr other ↦
        let rest = rw other at none_left in
        collect-kept cs (one_round c cards) rest (elim (Bool-cases c.cardholder.is_active) [
          | inl on ↦ rw on (add_permission-other c _ cards other h)
          | inr off ↦ rw off h
        ])
  ]

  -- The credential of the number comes up, once.
  pub collect-lets :
      (creds : List Credential) (cards : List PermissionCard) (c : Credential)
      → row_count (λ (x : Credential). same_codes x.card_number number) creds ≤ 1
      → find_row (λ (x : Credential). same_codes x.card_number number) creds ≡ some c
      → c.cardholder.is_active ≡ true
      → listed (doors_of doors levels c.cardholder) n ≡ true
      → exists_row (lets number n) (collect doors levels creds cards) ≡ true
  unfolding collect
  collect-lets [] cards c key found on open_here = cc
  collect-lets (x ∷ xs) cards c key found on open_here =
      elim (Bool-cases (same_codes x.card_number number)) [
        | inr other ↦
            collect-lets xs (one_round x cards) c (rw other at key) (rw other at found) on open_here
        | inl same ↦
            let first : some x ≡ some c = rw same at found in
            let here : x ≡ c = cc in
            let bound : suc (row_count (λ (y : Credential). same_codes y.card_number number) xs)
                ≤ 1 =
              rw same at key in
            let active : x.cardholder.is_active ≡ true = rw here on in
            let through : listed (doors_of doors levels x.cardholder) n ≡ true =
              rw here open_here in
            collect-kept xs (one_round x cards) (omega arith)
              (rw active (add_permission-listed x _ cards through same))
      ]
