-- ===== src/Access/Policy.antt =====
-- Who may pass a door, said without the order in which the code asks.
use cerradura_magnetica.Prelude.{
  ℕ, ◌≡◌, ◌↔◌, ◌⊎◌, inl, inr, refl, Bool, true, false, ◌&&◌, not, String, List, [], ◌∷◌, Option,
  none, some, arith, if◌then◌else◌, Bool-cases, Option-cases, find_row,
}
use cerradura_magnetica.Models.Access.{
  credential_inactive, wrong_pin, cardholder_inactive, out_of_validity, Credential, DoorRule,
}
use cerradura_magnetica.Models.Gateway.{Door, DoorMode, controlled, normally_open, normally_closed}
use cerradura_magnetica.Access.{
  Directory, LocalTime, AccessDecision, deny, unknown, card_is, pin_required, pin_matches,
  outside_validity, door_rules, rule_allows, try_rules,
}
use cerradura_magnetica.Access.Decision.{
  resolve_virtual_pin, local_now, evaluate_rules, evaluate_mode, evaluate_credential,
  evaluate_access,
}

-- Some member of the list has the property.
abbrev pub Some {ℓ} : {A : Type ℓ} → (A → Type 0) → List A → Type 0
Some P [] = false ≡ true
Some P (x ∷ xs) = P x ⊎ Some P xs

try_rules-granted :
    (db : Directory) (org : ℕ) (local : LocalTime) (rules : List DoorRule) (b : Bool)
    → ((try_rules db org local rules b).0 ≡ true)
      ↔ Some (λ r. rule_allows db org local r ≡ true) rules
unfolding try_rules
try_rules-granted db org local [] b = (λ h. h, λ h. h)
try_rules-granted db org local (r ∷ rs) b = elim (Bool-cases (rule_allows db org local r)) [
  | inl allowed ↦ (λ _. inl allowed, λ _. rw allowed refl)
  | inr refused ↦
      let (to, back) = try_rules-granted db org local rs true in
      (
        λ h. inr (to (rw refused at h)),
        λ h. elim h [
          | inl allowed ↦ let clash : false ≡ true = rw refused at allowed in cc
          | inr later ↦ rw refused (back later)
        ],
      )
]

factor_true : (a b d : Bool) → (a && not b && not d) ≡ false → a ≡ true → b ≡ false → d ≡ true
factor_true a b d h x y = ground (arith, h)

factor_false : (a b d : Bool) → (a ≡ true → b ≡ false → d ≡ true) → (a && not b && not d) ≡ false
factor_false true true d h = refl
factor_false true false d h = rw (h refl refl) refl
factor_false false b d h = refl

-- The four tests before the door, in their order.
all_tests :
    (c : Credential) (k : AccessDecision) (on wrong here out : Bool)
    → ((if not on
          then deny credential_inactive c
          else if wrong
          then deny wrong_pin c
          else if not here
          then deny cardholder_inactive c
          else if out
          then deny out_of_validity c
          else k).granted
        ≡ true)
      ↔ ((on ≡ true) × (wrong ≡ false) × (here ≡ true) × (out ≡ false) × (k.granted ≡ true))
all_tests c k false wrong here out = (λ h. cc, λ t. let e = t.0 in cc)
all_tests c k true true here out = (λ h. cc, λ t. let e = t.1 in cc)
all_tests c k true false false out = (λ h. cc, λ t. let e = t.2 in cc)
all_tests c k true false true true = (λ h. cc, λ t. let e = t.3 in cc)
all_tests c k true false true false = (λ h. (refl, refl, refl, refl, h), λ t. t.4)

module _ (is_digit : ℕ → Bool) (zone : String → ℕ → Option LocalTime) (utc : ℕ → LocalTime) where
  -- The holder has a rule for the door that is open at the local time.
  abbrev pub HasOpenRule : Directory → ℕ → Door → Option String → Credential → ℕ → Type 0
  HasOpenRule db org door timezone c now =
      Some (λ r. rule_allows db org (local_now is_digit zone utc timezone now) r ≡ true)
        (door_rules db org c.cardholder door.id)

  rules_granted :
      (db : Directory) (org : ℕ) (door : Door) (timezone : Option String) (c : Credential) (now : ℕ)
      (rules : List DoorRule)
      → door_rules db org c.cardholder door.id ≡ rules
      → ((evaluate_rules is_digit zone utc db org door timezone c now).granted ≡ true)
        ↔ Some (λ r. rule_allows db org (local_now is_digit zone utc timezone now) r ≡ true) rules
  unfolding evaluate_rules
  rules_granted db org door timezone c now [] e = rw (e, evaluate_rules) (λ h. h, λ h. h)
  rules_granted db org door timezone c now (r ∷ rs) e =
      let local = local_now is_digit zone utc timezone now in
      let (to, back) = try_rules-granted db org local (r ∷ rs) false in
      rw (e, evaluate_rules)
        (elim (Bool-cases (try_rules db org local (r ∷ rs) false).0) [
          | inl won ↦ rw won (λ _. to won, λ _. refl)
          | inr lost ↦ elim (Bool-cases (try_rules db org local (r ∷ rs) false).1) [
            | inl failed ↦ rw (lost, failed) (λ h. cc, λ h. let clash = back h in cc)
            | inr idle ↦ rw (lost, idle) (λ h. cc, λ h. let clash = back h in cc)
          ]
        ])

  -- The door lets a valid holder through.
  abbrev pub IsOpenTo : Directory → ℕ → Door → Option String → Credential → ℕ → DoorMode → Type 0
  IsOpenTo db org door timezone c now mode =
      (mode ≡ normally_open) ⊎ ((mode ≡ controlled) × HasOpenRule db org door timezone c now)

  -- The credential is enough for the door at that time. `proven` tells that the PIN was already read.
  pub record Suffices (db : Directory) (org : ℕ) (door : Door) (timezone : Option String)
      (code : Option (List ℕ)) (c : Credential) (proven : Bool) (now : ℕ) : Type 0 where
    pub active : c.is_active ≡ true
    pub second_factor :
        (pin_required c.type ≡ true) → (proven ≡ false) → pin_matches code c.pin ≡ true
    pub holder_active : c.cardholder.is_active ≡ true
    pub in_validity : outside_validity c.cardholder now ≡ false
    pub door_open : IsOpenTo db org door timezone c now door.mode

  module _ (db : Directory) (org : ℕ) (door : Door) (timezone : Option String)
      (code : Option (List ℕ)) (c : Credential) (proven : Bool) (now : ℕ) where
    mode_granted :
        (mode : DoorMode)
        → ((evaluate_mode is_digit zone utc db org door timezone c now mode).granted ≡ true)
          ↔ IsOpenTo db org door timezone c now mode
    unfolding evaluate_mode
    mode_granted normally_open = (λ h. inl refl, λ h. refl)
    mode_granted normally_closed =
        (λ h. cc, λ h. elim h [ inl e ↦ cc | inr both ↦ let e = both.0 in cc ])
    mode_granted controlled =
        let (to, back) = rules_granted db org door timezone c now _ refl in
        (λ h. inr (refl, to h), λ h. elim h [ inl e ↦ cc | inr both ↦ back both.1 ])

    abbrev decision : AccessDecision
    decision = evaluate_credential is_digit zone utc db org door timezone code c proven now

    factor_read :
        ((pin_required c.type && not proven && not (pin_matches code c.pin)) ≡ false)
        ↔ ((pin_required c.type ≡ true) → (proven ≡ false) → pin_matches code c.pin ≡ true)
    factor_read = (
      λ h. factor_true (pin_required c.type) proven (pin_matches code c.pin) h,
      factor_false (pin_required c.type) proven (pin_matches code c.pin),
    )

    credential_granted : (decision.granted ≡ true) ↔ Suffices db org door timezone code c proven now
    unfolding evaluate_credential
    credential_granted =
        let (to, back) =
          all_tests c (evaluate_mode is_digit zone utc db org door timezone c now door.mode)
            c.is_active (pin_required c.type && not proven && not (pin_matches code c.pin))
            c.cardholder.is_active (outside_validity c.cardholder now) in
        (
          λ h.
              let (active, factor, holder, valid, passed) = to h in
              record {
                active = active;
                second_factor = factor_read.0 factor;
                holder_active = holder;
                in_validity = valid;
                door_open = (mode_granted door.mode).0 passed;
              },
          λ k. back (
            k.active,
            factor_read.1 k.second_factor,
            k.holder_active,
            k.in_validity,
            (mode_granted door.mode).1 k.door_open,
          ),
        )

  -- The credential that a swipe stands for: the one with that card number or, where there is none, the
  -- PIN credential whose keypad number it is, which proves the PIN.
  abbrev pub IsPresented : Directory → ℕ → List ℕ → Credential → Bool → Type 0
  IsPresented db org number c proven =
      ((find_row (card_is org number) db.credentials ≡ some c) × (proven ≡ false))
      ⊎ ((find_row (card_is org number) db.credentials ≡ none)
          × (resolve_virtual_pin is_digit zone utc db org number ≡ some c)
          × (proven ≡ true))

  module _ (db : Directory) (org : ℕ) (door : Door) (timezone : Option String) (number : List ℕ)
      (code : Option (List ℕ)) (now : ℕ) where
    abbrev swipe : AccessDecision
    swipe = evaluate_access is_digit zone utc db org door timezone number code now

    by_card :
        (c : Credential)
        → find_row (card_is org number) db.credentials ≡ some c
        → swipe ≡ decision db org door timezone code c false now
    unfolding evaluate_access
    by_card c found = rw (found, evaluate_access) refl

    by_keypad :
        (c : Credential)
        → find_row (card_is org number) db.credentials ≡ none
        → resolve_virtual_pin is_digit zone utc db org number ≡ some c
        → swipe ≡ decision db org door timezone code c true now
    unfolding evaluate_access
    by_keypad c absent found = rw (absent, evaluate_access) (rw (found, evaluate_access) refl)

    by_nothing :
        find_row (card_is org number) db.credentials ≡ none
        → resolve_virtual_pin is_digit zone utc db org number ≡ none
        → swipe ≡ unknown
    unfolding evaluate_access
    by_nothing absent missing = rw (absent, evaluate_access) (rw (missing, evaluate_access) refl)

    granted_to :
        swipe.granted ≡ true
        → (c : Credential) × (proven : Bool) × IsPresented db org number c proven
          × Suffices db org door timezone code c proven now
    granted_to h = elim (Option-cases (find_row (card_is org number) db.credentials)) [
      | inr (c, found) ↦ (
        c,
        false,
        inl (found, refl),
        (credential_granted db org door timezone code c false now).0 (rw (by_card c found) at h),
      )
      | inl absent ↦ elim (Option-cases (resolve_virtual_pin is_digit zone utc db org number)) [
        | inr (c, found) ↦ (
          c,
          true,
          inr (absent, found, refl),
          (credential_granted db org door timezone code c true now).0
              (rw (by_keypad c absent found) at h),
        )
        | inl missing ↦ let refused : false ≡ true = rw (by_nothing absent missing) at h in cc
      ]
    ]

    granted_from :
        (c : Credential) (proven : Bool)
        → IsPresented db org number c proven
        → Suffices db org door timezone code c proven now
        → swipe.granted ≡ true
    granted_from c false (inl (found, e)) k =
        rw (by_card c found) ((credential_granted db org door timezone code c false now).1 k)
    granted_from c true (inl (found, e)) k = cc
    granted_from c true (inr (absent, found, e)) k =
        rw (by_keypad c absent found)
          ((credential_granted db org door timezone code c true now).1 k)
    granted_from c false (inr (absent, found, e)) k = cc

    -- A swipe is granted exactly when it stands for a credential that suffices: the credential and its
    -- holder are active, a credential that takes a PIN was given it, the instant lies in the holder's
    -- validity, and the door is normally open or, being controlled, has a rule in the holder's access
    -- levels that is open at the site's local time.
    pub evaluate_access_granted : (swipe.granted ≡ true) ↔ (
        (c : Credential) × (proven : Bool) × IsPresented db org number c proven
        × Suffices db org door timezone code c proven now)
    evaluate_access_granted =
        (granted_to, λ (c, proven, presented, k). granted_from c proven presented k)
