-- ===== src/Access.antt =====
-- backend/app/services/access_engine.py, with wiegand.py: what is read for a decision, PINs, keypad
-- numbers, schedules and rules. The decision itself is in Access/Decision, the event of a swipe in
-- Access/Swipe. Card numbers and PINs are lists of character codes; PINs are ASCII, for which
-- `compare_digest` raises nothing.
pub mod Decision
pub mod Policy
pub mod Swipe
pub mod Tests
use cerradura_magnetica.Prelude.{
  ℕ, ◌+◌, ◌-◌, ◌≡◌, refl, arith, Bool, true, false, ◌&&◌, ◌||◌, not, List, [], ◌∷◌, ◌++◌, Option,
  none, some, leb, ltb, ◌==◌, if◌then◌else◌, holds, is_none, length, replicate, select, find_row,
}
use cerradura_magnetica.Models.Access.{
  CredentialType, card, pin, card_plus_pin, DeniedReason, unknown_credential, Cardholder,
  Credential, ScheduleInterval, Schedule, DoorRule, AccessLevel, Holiday,
}

pub record Directory : Type 0 where
  pub credentials : List Credential
  pub levels : List AccessLevel
  pub schedules : List Schedule
  pub holidays : List Holiday

-- What the code reads of a local `datetime`.
pub record LocalTime : Type 0 where
  pub date : ℕ
  pub weekday : ℕ
  pub time : ℕ

pub record AccessDecision : Type 0 where
  pub granted : Bool
  pub reason : Option DeniedReason
  pub cardholder : Option Cardholder
  pub credential : Option Credential

abbrev pub deny : DeniedReason → Credential → AccessDecision
deny reason c = record {
  granted = false;
  reason = some reason;
  cardholder = some c.cardholder;
  credential = some c;
}

abbrev pub grant : Credential → AccessDecision
grant c = record {
  granted = true;
  reason = none;
  cardholder = some c.cardholder;
  credential = some c;
}

abbrev pub unknown : AccessDecision
unknown = record {
  granted = false;
  reason = some unknown_credential;
  cardholder = none;
  credential = none;
}

abbrev pub same_codes : List ℕ → List ℕ → Bool
same_codes [] [] = true
same_codes [] (y ∷ ys) = false
same_codes (x ∷ xs) [] = false
same_codes (x ∷ xs) (y ∷ ys) = x == y && same_codes xs ys

pub same_codes_refl : (cs : List ℕ) → same_codes cs cs ≡ true
same_codes_refl [] = refl
same_codes_refl (c ∷ cs) = ground (arith, same_codes_refl cs)

pub same_codes-eq : (a b : List ℕ) → same_codes a b ≡ true → a ≡ b
same_codes-eq [] [] h = refl
same_codes-eq [] (y ∷ b) h = cc
same_codes-eq (x ∷ a) [] h = cc
same_codes-eq (x ∷ a) (y ∷ b) h = ground (arith, same_codes-eq a b)

abbrev pub is_empty : List ℕ → Bool
is_empty [] = true
is_empty (x ∷ xs) = false

-- `_PIN_REQUIRED`
abbrev pub pin_required : CredentialType → Bool
pin_required card = false
pin_required pin = true
pin_required card_plus_pin = true

abbrev pub is_pin_only : CredentialType → Bool
is_pin_only pin = true
is_pin_only _ = false

unfoldable pub pin_matches : Option (List ℕ) → Option (List ℕ) → Bool
pin_matches presented stored =
    holds presented
      (λ p. holds stored (λ s. not (is_empty p) && not (is_empty s) && same_codes p s))

abbrev pub virtual_card_digits : ℕ
virtual_card_digits = 10

abbrev pub is_sign : ℕ → Bool
is_sign c = c == b'+' || c == b'-'

-- `str.zfill`: zeros after a leading sign.
abbrev pub zfill : List ℕ → ℕ → List ℕ
zfill [] width = replicate width b'0'
zfill (c ∷ cs) width =
    let fill = replicate (width - (length cs + 1)) b'0' in
    if is_sign c then c ∷ (fill ++ cs) else fill ++ c ∷ cs

unfoldable pub virtual_card_number : List ℕ → List ℕ
virtual_card_number code = zfill code virtual_card_digits

abbrev pub every : (ℕ → Bool) → List ℕ → Bool
every p [] = true
every p (x ∷ xs) = p x && every p xs

abbrev pub card_is : ℕ → List ℕ → Credential → Bool
card_is organization_id card_number c =
    c.organization_id == organization_id && same_codes c.card_number card_number

abbrev pub produces : List ℕ → Credential → Bool
produces card_number c =
    holds c.pin (λ p. not (is_empty p) && same_codes (virtual_card_number p) card_number)

abbrev pub pin_credential : ℕ → Credential → Bool
pin_credential organization_id c =
    c.organization_id == organization_id && is_pin_only c.type && c.is_active

abbrev pub inside : LocalTime → ScheduleInterval → Bool
inside at_time iv =
    iv.day_of_week == at_time.weekday
    && leb iv.start_time at_time.time
    && leb at_time.time iv.end_time

abbrev pub some_interval : LocalTime → List ScheduleInterval → Bool
some_interval at_time [] = false
some_interval at_time (iv ∷ ivs) = inside at_time iv || some_interval at_time ivs

abbrev pub is_holiday : List Holiday → ℕ → ℕ → Bool
is_holiday holidays organization_id date = not (
    is_none
      (find_row (λ (h : Holiday). h.organization_id == organization_id && h.date == date) holidays))

unfoldable pub schedule_allows : Directory → Schedule → ℕ → LocalTime → Bool
schedule_allows db schedule organization_id local =
    if not schedule.allow_on_holidays && is_holiday db.holidays organization_id local.date
    then false
    else some_interval local schedule.intervals

abbrev pub listed : List ℕ → ℕ → Bool
listed [] id = false
listed (x ∷ xs) id = x == id || listed xs id

abbrev pub rules_of : List AccessLevel → ℕ → List DoorRule
rules_of [] door_id = []
rules_of (l ∷ ls) door_id =
    select (λ (r : DoorRule). r.door_id == door_id) l.door_rules ++ rules_of ls door_id

-- The rules for the door in the holder's access levels.
unfoldable pub door_rules : Directory → ℕ → Cardholder → ℕ → List DoorRule
door_rules db organization_id holder door_id =
    rules_of
      (select
        (λ (l : AccessLevel).
          listed l.cardholder_ids holder.id && l.organization_id == organization_id)
        db.levels)
      door_id

abbrev pub rule_allows : Directory → ℕ → LocalTime → DoorRule → Bool
rule_allows db organization_id local rule = elim rule.schedule_id [
  | none ↦ true
  | some id ↦
      holds (find_row (λ (s : Schedule). s.id == id) db.schedules)
        (λ s. schedule_allows db s organization_id local)
]

-- The loop over the rules: whether it returned, and otherwise `schedule_failed`.
unfoldable pub try_rules : Directory → ℕ → LocalTime → List DoorRule → Bool → Bool × Bool
try_rules db organization_id local [] schedule_failed = (false, schedule_failed)
try_rules db organization_id local (r ∷ rs) schedule_failed =
    let rest = try_rules db organization_id local rs true in
    if rule_allows db organization_id local r then (true, schedule_failed) else rest

abbrev pub outside_validity : Cardholder → ℕ → Bool
outside_validity holder now =
    holds holder.valid_from (λ t. ltb now t) || holds holder.valid_to (λ t. ltb t now)
