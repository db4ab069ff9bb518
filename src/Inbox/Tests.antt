-- ===== src/Inbox/Tests.antt =====
-- A board reports a swipe, the same swipe again, an event of no known type and one of a foreign board.
use cerradura_magnetica.Prelude.{◌≡◌, refl, true, false, List, [], ◌∷◌, ◌++◌, none, some, length}
use cerradura_magnetica.Models.Gateway.{Controller, unknown, Door, controlled, Event}
use cerradura_magnetica.Models.Access.{Cardholder, Credential, card}
use cerradura_magnetica.Events.{EventLog}
use cerradura_magnetica.Inbox.{
  GatewayEventIn, Scope, Ingest, ingest_events, ingest_one, insert_in_savepoint, resolve_controller,
  parse_event_type, describe,
}
use cerradura_magnetica.Inbox.Redelivery.{redelivered}
use cerradura_magnetica.Inbox.Origin.{Reported, ingest_events-Reported}

abbrev board : Controller
board = record {
  id = 4;
  organization_id = 1;
  site_timezone = none;
  name = "Lobby";
  serial_number = b'7' ∷ b'1' ∷ [];
  ip_address = none;
  status = unknown;
  last_seen_at = none;
}

abbrev door : Door
door = record {
  id = 9;
  organization_id = 1;
  controller_id = 4;
  number = 2;
  name = "Gate";
  mode = controlled;
  requires_dual_approval = false;
}

abbrev holder : Cardholder
holder = record {
  id = 3;
  organization_id = 1;
  full_name = [];
  valid_from = none;
  valid_to = none;
  is_active = true;
}

abbrev badge : Credential
badge = record {
  id = 5;
  organization_id = 1;
  cardholder = holder;
  type = card;
  card_number = b'7' ∷ b'0' ∷ [];
  pin = none;
  is_active = true;
}

abbrev tables : Scope
tables = record {
  controllers = board ∷ record board { id = 6; organization_id = 2 } ∷ [];
  doors = door ∷ [];
  credentials = badge ∷ [];
}

abbrev swipe : GatewayEventIn
swipe = record {
  event_uid = "u1";
  type = "access_granted";
  occurred_at = some 50;
  controller_id = none;
  controller_serial = some (b'7' ∷ b'1' ∷ []);
  door_number = some 2;
  card_number = some (b'7' ∷ b'0' ∷ []);
  message = none;
  details = none;
}

abbrev batch : List GatewayEventIn
batch =
    swipe
    ∷ swipe
    ∷ record swipe { event_uid = "u2"; type = "knock" }
    ∷ record swipe { event_uid = "u3"; controller_id = some 6; controller_serial = none }
    ∷ []

abbrev empty_log : EventLog
empty_log = record { events = []; next_id = 1; info = [] }

abbrev first : Ingest
first = ingest_events tables [] empty_log 1 batch 100

summary : (first.accepted ≡ 1) × (first.duplicates ≡ 1) × (length first.errors ≡ 2)
unfolding ingest_events ingest_one describe resolve_controller parse_event_type insert_in_savepoint
summary = (refl, refl, refl)

redelivered_example :
    ((ingest_events tables [] first.log 1 batch 200).log ≡ first.log)
    × ((ingest_events tables [] first.log 1 batch 200).accepted ≡ 0)
redelivered_example = redelivered tables [] [] empty_log 1 batch 100 200 (λ uid h. h)

ingest_events-Reported_example :
    (rows : List Event) × (first.log.events ≡ empty_log.events ++ rows)
    × Reported tables 1 batch rows
ingest_events-Reported_example = ingest_events-Reported tables [] empty_log 1 batch 100
