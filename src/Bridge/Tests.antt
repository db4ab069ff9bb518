-- ===== src/Bridge/Tests.antt =====
-- A dual-approval opening that the bridge reports: as done, and again as failed.
use cerradura_magnetica.Prelude.{ℕ, ◌≡◌, ◌≢◌, refl, true, false, [], ◌∷◌, none, some, ok, arith}
use cerradura_magnetica.Models.Gateway.{
  GatewayCommand, open_door, Payload, DoorOpenRequest, dispatched,
}
use cerradura_magnetica.Outbox.{new_command, lease, settle, release_lease, acknowledge}
use cerradura_magnetica.Effects.{Effects}
use cerradura_magnetica.Bridge.{GatewayBridge, Platform, get_command, acknowledge_command}
use cerradura_magnetica.Bridge.ExactlyOnce.{effect_once}

abbrev payload : Payload
payload = record {
  door = some 1;
  door_id = some 2;
  open_request_id = some 1;
  requested_by_id = some 7;
  approved_by_id = some 8;
  card_number = none;
  cards = none;
}

abbrev command : GatewayCommand
command = lease "w" 100 60 (new_command 1 10 4 open_door "dual:1" (some payload) 3)

abbrev request : DoorOpenRequest
request = record {
  id = 1;
  organization_id = 10;
  door_id = 2;
  controller_id = 4;
  requested_by_id = some 7;
  approved_by_id = some 8;
  status = dispatched;
  reason = none;
  expires_at = 160;
  resolved_at = none;
}

abbrev bridge : ℕ → GatewayBridge
bridge org = record {
  id = org;
  organization_id = org;
  cert_fingerprint = "ab";
  secret_hash = some "h";
  is_active = true;
  last_seen_at = none;
}

abbrev effects : Effects
effects = record {
  controllers = [];
  requests = request ∷ [];
  log = record { events = []; next_id = 1; info = [] };
}

abbrev platform : Platform
platform = record {
  outbox = record { commands = command ∷ []; next_id = 2 };
  fx = effects;
  bridges = bridge 10 ∷ bridge 11 ∷ [];
}

abbrev done : GatewayCommand
done = release_lease (settle command true (some "opened") none 110)

abbrev after : Platform
after = (acknowledge_command platform (bridge 10) 1 "w" true (some "opened") none 110).0

first_call :
    acknowledge_command platform (bridge 10) 1 "w" true (some "opened") none 110 ≡ (after, ok done)
unfolding acknowledge_command get_command acknowledge
first_call = refl

effect_once_example :
    ((acknowledge_command after (bridge 10) 1 "v" false none (some "late") 140).1 ≡ ok done)
    × ((acknowledge_command after (bridge 10) 1 "v" false none (some "late") 140).0.fx ≡ after.fx)
effect_once_example =
    effect_once platform after (bridge 10) (bridge 10) 1 "w" "v" true false (some "opened") none
      none (some "late") 110 140 done first_call refl refl

other_org : 10 ≢ (bridge 11).organization_id
other_org = λ h. omega (arith, h)
