-- ===== src/Api/Tests.antt =====
-- A lost card in an organization of two boards, and a board that does not answer.
use cerradura_magnetica.Prelude.{
  ℕ, ◌≡◌, refl, Bool, true, false, String, [], ◌∷◌, none, some, ok, find_row, ◌==◌,
}
use cerradura_magnetica.Models.Gateway.{Controller, unknown, open_door}
use cerradura_magnetica.Models.Access.{Cardholder, Credential, card}
use cerradura_magnetica.Bridge.{Platform}
use cerradura_magnetica.Api.Desk.{get_controller}
use cerradura_magnetica.Api.{get_or_404}
use cerradura_magnetica.Api.Dispatch.{command_key, AreFresh, Reaches}
use cerradura_magnetica.Api.Credentials.{
  People, get_credential, update_credential, deactivation, apply_update, deactivated_everywhere,
}

open_key : command_key open_door 120 "abc" ≡ "open_door:120:abc"
unfolding command_key
open_key = refl

abbrev board : Controller
board = record {
  id = 4;
  organization_id = 1;
  site_timezone = none;
  name = "Lobby";
  serial_number = [];
  ip_address = none;
  status = unknown;
  last_seen_at = none;
}

abbrev holder : Cardholder
holder = record {
  id = 3;
  organization_id = 1;
  full_name = [];
  valid_from = none;
  valid_to = none;
  is_active = true;
}

abbrev badge : Credential
badge = record {
  id = 5;
  organization_id = 1;
  cardholder = holder;
  type = card;
  card_number = b'7' ∷ b'0' ∷ [];
  pin = none;
  is_active = true;
}

abbrev people : People
people = record {
  holders = holder ∷ [];
  credentials = badge ∷ [];
  next_id = 6;
  controllers = board ∷ record board { id = 6 } ∷ record board { id = 7; organization_id = 2 } ∷ [];
  outbox = record { commands = []; next_id = 1 };
}

abbrev uuids : ℕ → String
uuids cid = "0f"

badge_found : get_credential people.credentials 5 1 ≡ ok badge
unfolding get_or_404
badge_found = refl

keys-AreFresh : AreFresh people.outbox 1 uuids (4 ∷ 6 ∷ [])
unfolding command_key
keys-AreFresh = (refl, (refl, tt), (refl, tt, tt))

deactivated_everywhere_example :
    let (db', answer) = update_credential true people 1 3 5 (deactivation none) uuids in
    (answer ≡ ok (apply_update (deactivation none) badge))
    × (find_row (λ x. x.id == 5) db'.credentials ≡ some (apply_update (deactivation none) badge))
    × Reaches 1 badge.card_number uuids (4 ∷ 6 ∷ []) db'.outbox
deactivated_everywhere_example =
    deactivated_everywhere people 1 3 5 uuids badge badge_found refl keys-AreFresh none refl

abbrev silent : Controller → Bool × String
silent controller = (false, "no answer")

abbrev site : Platform
site = record {
  outbox = record { commands = []; next_id = 1 };
  fx = record {
    controllers = people.controllers;
    requests = [];
    log = record { events = []; next_id = 1; info = [] };
  };
  bridges = [];
}

board_loaded : get_controller site.fx.controllers 4 1 ≡ ok board
unfolding get_or_404
board_loaded = refl
