-- ===== src/Access/Tests.antt =====
-- A controlled door, a holder with a card and a PIN, and a rule for weekdays.
use cerradura_magnetica.Prelude.{
  ℕ, ◌≡◌, ◌↔◌, refl, Bool, true, false, ◌&&◌, String, List, [], ◌∷◌, Option, none, some, leb,
}
use cerradura_magnetica.Models.Access.{Cardholder, Credential, card_plus_pin}
use cerradura_magnetica.Models.Gateway.{Door, controlled}
use cerradura_magnetica.Events.{EventLog}
use cerradura_magnetica.Access.{
  Directory, LocalTime, try_rules, door_rules, schedule_allows, pin_matches,
}
use cerradura_magnetica.Access.Decision.{
  evaluate_access, evaluate_credential, evaluate_mode, evaluate_rules, local_now,
  resolve_virtual_pin, looks_like_virtual_card,
}
use cerradura_magnetica.Access.Policy.{IsPresented, Suffices, evaluate_access_granted}
use cerradura_magnetica.Access.Swipe.{AreAlike, process_swipe, process_swipe_masked}

abbrev is_digit : ℕ → Bool
is_digit c = leb b'0' c && leb c b'9'

abbrev monday : ℕ → LocalTime
monday now = record { date = 7; weekday = 0; time = now }

abbrev no_zone : String → ℕ → Option LocalTime
no_zone name now = none

abbrev holder : Cardholder
holder = record {
  id = 3;
  organization_id = 10;
  full_name = b'A' ∷ [];
  valid_from = some 100;
  valid_to = none;
  is_active = true;
}

abbrev badge : Credential
badge = record {
  id = 5;
  organization_id = 10;
  cardholder = holder;
  type = card_plus_pin;
  card_number = b'7' ∷ b'0' ∷ b'1' ∷ [];
  pin = some (b'4' ∷ b'2' ∷ []);
  is_active = true;
}

abbrev directory : Directory
directory = record {
  credentials = badge ∷ [];
  levels =
      record {
        id = 1;
        organization_id = 10;
        cardholder_ids = 3 ∷ [];
        door_rules = record { door_id = 2; schedule_id = some 6 } ∷ [];
      }
      ∷ [];
  schedules =
      record {
        id = 6;
        allow_on_holidays = false;
        intervals = record { day_of_week = 0; start_time = 200; end_time = 900 } ∷ [];
      }
      ∷ [];
  holidays = [];
}

abbrev gate : Door
gate = record {
  id = 2;
  organization_id = 10;
  controller_id = 4;
  number = 1;
  name = "Gate";
  mode = controlled;
  requires_dual_approval = false;
}

evaluate_access_granted_example :
    ((evaluate_access is_digit no_zone monday directory 10 gate none
        (b'7' ∷ b'0' ∷ b'1' ∷ [])
        (some (b'4' ∷ b'2' ∷ []))
        300).granted
      ≡ true)
    ↔ ((c : Credential) × (proven : Bool) × IsPresented is_digit no_zone monday directory 10
          (b'7' ∷ b'0' ∷ b'1' ∷ [])
          c
          proven
        × Suffices is_digit no_zone monday directory 10 gate none
            (some (b'4' ∷ b'2' ∷ []))
            c
            proven
            300)
evaluate_access_granted_example =
    evaluate_access_granted is_digit no_zone monday directory 10 gate none (b'7' ∷ b'0' ∷ b'1' ∷ [])
      (some (b'4' ∷ b'2' ∷ [])) 300

abbrev stranger : List ℕ
stranger = b'1' ∷ b'9' ∷ b'8' ∷ b'7' ∷ b'6' ∷ []

abbrev other : List ℕ
other = b'2' ∷ b'9' ∷ b'8' ∷ b'7' ∷ b'6' ∷ []

strangers-AreAlike : AreAlike stranger other
strangers-AreAlike = (refl, λ h. refl)

abbrev empty_log : EventLog
empty_log = record { events = []; next_id = 1; info = [] }

both_unknown :
    evaluate_access is_digit no_zone monday directory 10 gate none stranger none 300
    ≡ evaluate_access is_digit no_zone monday directory 10 gate none other none 300
unfolding evaluate_access resolve_virtual_pin looks_like_virtual_card
both_unknown = refl

process_swipe_masked_example :
    process_swipe is_digit no_zone monday directory empty_log 10 gate none stranger none 300
    ≡ process_swipe is_digit no_zone monday directory empty_log 10 gate none other none 300
process_swipe_masked_example =
    process_swipe_masked is_digit no_zone monday directory empty_log 10 gate none stranger other
      none 300 strangers-AreAlike both_unknown

granted_at_300 :
    (evaluate_access is_digit no_zone monday directory 10 gate none
      (b'7' ∷ b'0' ∷ b'1' ∷ [])
      (some (b'4' ∷ b'2' ∷ []))
      300).granted
    ≡ true
unfolding evaluate_access evaluate_credential evaluate_mode evaluate_rules try_rules door_rules
    local_now schedule_allows pin_matches
granted_at_300 = refl
