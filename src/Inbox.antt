-- ===== src/Inbox.antt =====
-- backend/app/services/gateway_inbox.py: the events that boards report through a bridge, and the
-- bridge's own call (`ingest_board_events`, backend/app/api/v1/gateway_bridge.py). `seen` is the events
-- table as the SELECT saw it; the log is the one that the inserts run on. What the session's hooks do
-- when a savepoint is released or undone is left out.
pub mod Laws
pub mod Redelivery
pub mod Origin
pub mod Tests
use mathlib.Core.Option
use cerradura_magnetica.Prelude.{
  ℕ, suc, Bool, ◌&&◌, ◌||◌, String, text_eq, List, [], ◌∷◌, ◌++◌, Option, none, some, ◌==◌,
  if◌then◌else◌, holds, select, exists_row, last_row,
}
use cerradura_magnetica.Models.Gateway.{
  Controller, Door, Event, EventType, access_granted, access_denied, door_opened, door_closed,
  door_forced, door_held_open, remote_open, controller_online, controller_offline, alarm, Part, lit,
  Json, word,
}
use cerradura_magnetica.Models.Access.{Credential}
use cerradura_magnetica.Bridge.{Platform, GatewayBridge, touch}
use cerradura_magnetica.Events.{EventLog, NewEvent, record_event}
use cerradura_magnetica.Access.{same_codes, is_empty}
use cerradura_magnetica.Access.Swipe.{mask_card}

-- backend/app/schemas/gateway.py
pub record GatewayEventIn : Type 0 where
  pub event_uid : String
  pub type : String
  pub occurred_at : Option ℕ
  pub controller_id : Option ℕ
  pub controller_serial : Option (List ℕ)
  pub door_number : Option ℕ
  pub card_number : Option (List ℕ)
  pub message : Option String
  pub details : Option (List (String × Json))

-- The rows of one organization that a batch is resolved against.
pub record Scope : Type 0 where
  pub controllers : List Controller
  pub doors : List Door
  pub credentials : List Credential

abbrev pub own_controller : ℕ → Controller → Bool
own_controller organization_id k = k.organization_id == organization_id

abbrev pub own_door : ℕ → Door → Bool
own_door organization_id d = d.organization_id == organization_id

abbrev pub own_credential : ℕ → Credential → Bool
own_credential organization_id c = c.organization_id == organization_id

abbrev pub load_scope : Scope → ℕ → Scope
load_scope db organization_id = record {
  controllers = select (own_controller organization_id) db.controllers;
  doors = select (own_door organization_id) db.doors;
  credentials = select (own_credential organization_id) db.credentials;
}

abbrev pub valid_id : Scope → ℕ → Bool
valid_id scope id = exists_row (λ (k : Controller). k.id == id) scope.controllers

abbrev pub serial_to_id : Scope → Option (List ℕ) → Option ℕ
serial_to_id scope none = none
serial_to_id scope (some serial) =
    let found =
      Option.map (λ (k : Controller). k.id)
        (last_row (λ (k : Controller). same_codes k.serial_number serial) scope.controllers) in
    if is_empty serial then none else found

unfoldable pub resolve_controller : Scope → GatewayEventIn → Option ℕ
resolve_controller scope e =
    if holds e.controller_id (valid_id scope)
    then e.controller_id
    else serial_to_id scope e.controller_serial

abbrev pub door_at : Scope → ℕ → Option ℕ → Option ℕ
door_at scope controller_id none = none
door_at scope controller_id (some number) =
    let found =
      Option.map (λ (d : Door). d.id)
        (last_row (λ (d : Door). d.controller_id == controller_id && d.number == number)
          scope.doors) in
    if number == 0 then none else found

abbrev pub cardholder_of : Scope → Option (List ℕ) → Option ℕ
cardholder_of scope none = none
cardholder_of scope (some card) =
    let found =
      Option.map (λ (c : Credential). c.cardholder.id)
        (last_row (λ (c : Credential). same_codes c.card_number card) scope.credentials) in
    if is_empty card then none else found

abbrev pub event_value : EventType → String
event_value access_granted = "access_granted"
event_value access_denied = "access_denied"
event_value door_opened = "door_opened"
event_value door_closed = "door_closed"
event_value door_forced = "door_forced"
event_value door_held_open = "door_held_open"
event_value remote_open = "remote_open"
event_value controller_online = "controller_online"
event_value controller_offline = "controller_offline"
event_value alarm = "alarm"

abbrev pub event_types : List EventType
event_types =
    access_granted ∷ access_denied ∷ door_opened ∷ door_closed ∷ door_forced ∷ door_held_open
    ∷ remote_open ∷ controller_online ∷ controller_offline ∷ alarm ∷ []

-- `EventType(value)`, or the `ValueError`.
unfoldable pub parse_event_type : String → Option EventType
parse_event_type value = last_row (λ t. text_eq (event_value t) value) event_types

-- `details[key] = value`
abbrev pub set_key : List (String × Json) → String → Json → List (String × Json)
set_key [] key value = (key, value) ∷ []
set_key ((k, x) ∷ entries) key value =
    let rest = set_key entries key value in
    if text_eq k key then (k, value) ∷ entries else (k, x) ∷ rest

abbrev pub add_card : List (String × Json) → Option (List ℕ) → List (String × Json)
add_card details none = details
add_card details (some card) =
    if is_empty card then details else set_key details "card" (Json.text (mask_card card))

abbrev pub or_empty_dict : Option (List (String × Json)) → List (String × Json)
or_empty_dict none = []
or_empty_dict (some details) = details

unfoldable pub board_details : GatewayEventIn → List (String × Json)
board_details e = add_card (set_key (or_empty_dict e.details) "source" (word "board")) e.card_number

abbrev pub default_message : EventType → List Part
default_message type = lit (event_value type) ∷ lit " reported by board" ∷ []

abbrev pub board_message : EventType → Option String → List Part
board_message type none = default_message type
board_message type (some message) =
    if text_eq message "" then default_message type else lit message ∷ []

abbrev pub board_event : Scope → ℕ → GatewayEventIn → ℕ → EventType → NewEvent
board_event scope organization_id e controller_id type = record {
  organization_id = organization_id;
  type = type;
  message = board_message type e.message;
  controller_id = some controller_id;
  door_id = door_at scope controller_id e.door_number;
  cardholder_id = cardholder_of scope e.card_number;
  credential_id = none;
  details = board_details e;
  external_id = some e.event_uid;
  occurred_at = e.occurred_at;
}

pub data Refusal : Type 0 where
  unknown_controller : Refusal
  unknown_event_type : String → Refusal

pub data Verdict : Type 0 where
  repeated : Verdict
  refused : Refusal → Verdict
  fresh : NewEvent → Verdict

-- The loop's body from the look-up of the controller to the arguments of `record_event`.
unfoldable pub describe : Scope → ℕ → GatewayEventIn → Verdict
describe scope organization_id e = elim (resolve_controller scope e) [
  | none ↦ refused unknown_controller
  | some controller_id ↦ elim (parse_event_type e.type) [
    | none ↦ refused (unknown_event_type e.type)
    | some type ↦ fresh (board_event scope organization_id e controller_id type)
  ]
]

pub record Ingest : Type 0 where
  pub log : EventLog
  pub seen : List String
  pub accepted : ℕ
  pub duplicates : ℕ
  pub errors : List (String × Refusal)

abbrev pub uid_in : List String → String → Bool
uid_in uids uid = exists_row (λ x. text_eq x uid) uids

abbrev pub has_external : ℕ → String → Event → Bool
has_external organization_id uid ev =
    ev.organization_id == organization_id && holds ev.external_id (λ x. text_eq x uid)

-- The set `already`, by its members.
abbrev pub already : List Event → ℕ → List GatewayEventIn → String → Bool
already seen organization_id events uid =
    exists_row (λ (e : GatewayEventIn). text_eq e.event_uid uid) events
    && exists_row (has_external organization_id uid) seen

-- The unique constraint on (organization, external id), which a NULL does not meet.
abbrev pub violates : List Event → NewEvent → Bool
violates events ev =
    holds ev.external_id (λ uid. exists_row (has_external ev.organization_id uid) events)

-- The savepoint undoes an insert that violates it.
unfoldable pub insert_in_savepoint : Ingest → String → ℕ → NewEvent → Ingest
unfolding record_event
insert_in_savepoint s uid utcnow ev =
    if violates s.log.events ev then record s { duplicates = suc s.duplicates } else record s {
      log = (record_event s.log utcnow ev).0;
      seen = uid ∷ s.seen;
      accepted = suc s.accepted;
    }

abbrev pub settle_verdict : Ingest → String → ℕ → Verdict → Ingest
settle_verdict s uid utcnow repeated = record s { duplicates = suc s.duplicates }
settle_verdict s uid utcnow (refused reason) = record s { errors = s.errors ++ (uid, reason) ∷ [] }
settle_verdict s uid utcnow (fresh ev) = insert_in_savepoint s uid utcnow ev

unfoldable pub ingest_one : Scope → ℕ → (String → Bool) → ℕ → Ingest → GatewayEventIn → Ingest
ingest_one scope organization_id known utcnow s e = settle_verdict s e.event_uid utcnow (
    if known e.event_uid || uid_in s.seen e.event_uid
    then repeated
    else describe scope organization_id e)

unfoldable pub ingest_each : Scope → ℕ → (String → Bool) → ℕ → Ingest → List GatewayEventIn → Ingest
ingest_each scope organization_id known utcnow s [] = s
ingest_each scope organization_id known utcnow s (e ∷ es) =
    ingest_each scope organization_id known utcnow
      (ingest_one scope organization_id known utcnow s e) es

abbrev pub start : EventLog → Ingest
start log = record { log = log; seen = []; accepted = 0; duplicates = 0; errors = [] }

unfoldable pub ingest_events : Scope → List Event → EventLog → ℕ → List GatewayEventIn → ℕ → Ingest
unfolding ingest_each
ingest_events db seen log organization_id events utcnow =
    ingest_each (load_scope db organization_id) organization_id
      (already seen organization_id events) utcnow (start log) events

unfoldable pub ingest_board_events :
    Scope → List Event → Platform → GatewayBridge → List GatewayEventIn → ℕ → Platform × Ingest
unfolding ingest_events
ingest_board_events db seen p bridge events now =
    let s = ingest_events db seen p.fx.log bridge.organization_id events now in
    (record p { fx = record p.fx { log = s.log }; bridges = touch p.bridges bridge now }, s)
