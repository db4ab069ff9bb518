-- ===== src/Access/Decision.antt =====
-- backend/app/services/access_engine.py: evaluate_access. `str.isdigit` of a character and the time zone
-- database are parameters; `zone` gives `none` where ZoneInfo raises, and `utc` is UTC.
use cerradura_magnetica.Prelude.{
  ℕ, Bool, true, false, ◌&&◌, not, String, List, [], ◌∷◌, Option, none, some, ◌==◌, if◌then◌else◌,
  length, find_row,
}
use cerradura_magnetica.Models.Access.{
  credential_inactive, cardholder_inactive, out_of_validity, no_access_level, out_of_schedule,
  wrong_pin, door_locked, Credential,
}
use cerradura_magnetica.Models.Gateway.{Door, DoorMode, controlled, normally_open, normally_closed}
use cerradura_magnetica.Access.{
  Directory, LocalTime, AccessDecision, deny, grant, unknown, is_empty, pin_required, pin_matches,
  virtual_card_digits, virtual_card_number, every, card_is, produces, pin_credential, door_rules,
  try_rules, outside_validity,
}

module _ (is_digit : ℕ → Bool) (zone : String → ℕ → Option LocalTime) (utc : ℕ → LocalTime) where
  unfoldable pub looks_like_virtual_card : List ℕ → Bool
  looks_like_virtual_card card_number =
      not (is_empty card_number)
      && every is_digit card_number
      && length card_number == virtual_card_digits

  unfoldable pub resolve_virtual_pin : Directory → ℕ → List ℕ → Option Credential
  unfolding looks_like_virtual_card virtual_card_number
  resolve_virtual_pin db organization_id card_number =
      if not (looks_like_virtual_card card_number)
      then none
      else find_row (λ c. pin_credential organization_id c && produces card_number c) db.credentials

  -- `timezone` is that of the door's site, where it has one.
  unfoldable pub local_now : Option String → ℕ → LocalTime
  local_now timezone now = elim timezone [
    | none ↦ elim (zone "UTC" now) [ none ↦ utc now | some t ↦ t ]
    | some name ↦ elim (zone name now) [ none ↦ utc now | some t ↦ t ]
  ]

  -- The door's rules, once the holder is known to be valid.
  unfoldable pub evaluate_rules :
      Directory → ℕ → Door → Option String → Credential → ℕ → AccessDecision
  unfolding try_rules
  evaluate_rules db organization_id door timezone c now =
      elim (door_rules db organization_id c.cardholder door.id) [
        | [] ↦ deny no_access_level c
        | r ∷ rs ↦
            let (allowed, schedule_failed) =
              try_rules db organization_id (local_now timezone now) (r ∷ rs) false in
            if allowed
            then grant c
            else if schedule_failed
            then deny out_of_schedule c
            else deny no_access_level c
      ]

  -- From the door's mode, `door.mode`.
  unfoldable pub evaluate_mode :
      Directory → ℕ → Door → Option String → Credential → ℕ → DoorMode → AccessDecision
  evaluate_mode db organization_id door timezone c now normally_open = grant c
  evaluate_mode db organization_id door timezone c now normally_closed = deny door_locked c
  evaluate_mode db organization_id door timezone c now controlled =
      evaluate_rules db organization_id door timezone c now

  -- From the credential that was found.
  unfoldable pub evaluate_credential :
      Directory
      → ℕ
      → Door
      → Option String
      → Option (List ℕ)
      → Credential
      → Bool
      → ℕ
      → AccessDecision
  unfolding pin_matches
  evaluate_credential db organization_id door timezone code c pin_verified_by_virtual now =
      if not c.is_active
      then deny credential_inactive c
      else if pin_required c.type && not pin_verified_by_virtual && not (pin_matches code c.pin)
      then deny wrong_pin c
      else if not c.cardholder.is_active
      then deny cardholder_inactive c
      else if outside_validity c.cardholder now
      then deny out_of_validity c
      else evaluate_mode db organization_id door timezone c now door.mode

  unfoldable pub evaluate_access :
      Directory → ℕ → Door → Option String → List ℕ → Option (List ℕ) → ℕ → AccessDecision
  evaluate_access db organization_id door timezone card_number code now =
      elim (find_row (card_is organization_id card_number) db.credentials) [
        | some c ↦ evaluate_credential db organization_id door timezone code c false now
        | none ↦ elim (resolve_virtual_pin db organization_id card_number) [
          | none ↦ unknown
          | some c ↦ evaluate_credential db organization_id door timezone code c true now
        ]
      ]
