-- ===== src/Api/Permissions/Tests.antt =====
-- A board of two doors, a holder with a card, a PIN and a rule for one of the doors on weekdays.
use cerradura_magnetica.Prelude.{
  ℕ, ◌≡◌, refl, Bool, true, false, ◌&&◌, String, List, [], ◌∷◌, Option, none, some, leb, arith,
  exists_row,
}
use cerradura_magnetica.Models.Access.{Cardholder, Credential, card_plus_pin}
use cerradura_magnetica.Models.Gateway.{Door, controlled}
use cerradura_magnetica.Access.{
  Directory, LocalTime, try_rules, door_rules, schedule_allows, pin_matches,
}
use cerradura_magnetica.Access.Decision.{
  evaluate_access, evaluate_credential, evaluate_mode, evaluate_rules, local_now,
}
use cerradura_magnetica.Api.Permissions.{permission_cards, collect}
use cerradura_magnetica.Api.Permissions.Upload.{lets}
use cerradura_magnetica.Api.Permissions.Coverage.{permission_cards-cover}

abbrev is_digit : ℕ → Bool
is_digit c = leb b'0' c && leb c b'9'

abbrev monday : ℕ → LocalTime
monday now = record { date = 7; weekday = 0; time = now }

abbrev no_zone : String → ℕ → Option LocalTime
no_zone name now = none

abbrev holder : Cardholder
holder = record {
  id = 3;
  organization_id = 10;
  full_name = b'A' ∷ [];
  valid_from = some 100;
  valid_to = none;
  is_active = true;
}

abbrev badge : Credential
badge = record {
  id = 5;
  organization_id = 10;
  cardholder = holder;
  type = card_plus_pin;
  card_number = b'7' ∷ b'0' ∷ b'1' ∷ [];
  pin = some (b'4' ∷ b'2' ∷ []);
  is_active = true;
}

abbrev directory : Directory
directory = record {
  credentials = badge ∷ [];
  levels =
      record {
        id = 1;
        organization_id = 10;
        cardholder_ids = 3 ∷ [];
        door_rules = record { door_id = 2; schedule_id = some 6 } ∷ [];
      }
      ∷ [];
  schedules =
      record {
        id = 6;
        allow_on_holidays = false;
        intervals = record { day_of_week = 0; start_time = 200; end_time = 900 } ∷ [];
      }
      ∷ [];
  holidays = [];
}

abbrev gate : Door
gate = record {
  id = 2;
  organization_id = 10;
  controller_id = 4;
  number = 1;
  name = "Gate";
  mode = controlled;
  requires_dual_approval = false;
}

abbrev cellar : Door
cellar = record gate { id = 3; number = 2 }

abbrev number : List ℕ
number = b'7' ∷ b'0' ∷ b'1' ∷ []

-- The upload has the card for the one door, and the day from which it is valid.
uploaded :
    permission_cards (cellar ∷ gate ∷ []) directory 10 4
    ≡ record { card_number = number; doors = 1 ∷ []; valid_from = some 0; valid_to = none } ∷ []
unfolding permission_cards collect
uploaded = refl

let_in :
    (evaluate_access is_digit no_zone monday directory 10 gate none number
      (some (b'4' ∷ b'2' ∷ []))
      300).granted
    ≡ true
unfolding evaluate_access evaluate_credential evaluate_mode evaluate_rules local_now try_rules
    door_rules schedule_allows pin_matches
let_in = refl

permission_cards-cover_example :
    exists_row (lets number 1) (permission_cards (cellar ∷ gate ∷ []) directory 10 4) ≡ true
permission_cards-cover_example =
    permission_cards-cover is_digit no_zone monday directory (cellar ∷ gate ∷ []) 10 gate none
      (some (b'4' ∷ b'2' ∷ [])) 300 number badge let_in refl refl (omega arith) refl
