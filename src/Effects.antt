-- ===== src/Effects.antt =====
-- backend/app/services/gateway_effects.py: the platform's side of a settled bridge command.
pub mod Finalize
use cerradura_magnetica.Prelude.{
  ℕ, Bool, true, false, List, [], ◌∷◌, Option, none, some, String, ◌==◌, if◌then◌else◌, find_row,
  update_rows, not,
}
use cerradura_magnetica.Models.Gateway.{
  Controller, ControllerStatus, online, offline, unknown, DoorOpenRequest, executed, failed,
  is_dispatched, GatewayCommand, open_door, ping, Payload, remote_open, controller_online,
  controller_offline, Part, lit, Json, null, flag, word,
}
use cerradura_magnetica.Events.{EventLog, NewEvent, record_event}

-- The tables that an outcome touches.
pub record Effects : Type 0 where
  pub controllers : List Controller
  pub requests : List DoorOpenRequest
  pub log : EventLog

abbrev pub status_eq : ControllerStatus → ControllerStatus → Bool
status_eq online online = true
status_eq offline offline = true
status_eq unknown unknown = true
status_eq _ _ = false

abbrev pub status_value : ControllerStatus → String
status_value online = "online"
status_value offline = "offline"
status_value unknown = "unknown"

abbrev pub json_id : Option ℕ → Json
json_id none = null
json_id (some n) = Json.number n

-- `command.payload or {}`, then `.get(key)`
abbrev pub get_key : Option Payload → (Payload → Option ℕ) → Option ℕ
get_key none key = none
get_key (some p) key = key p

abbrev pub bridge_open_event : GatewayCommand → NewEvent
bridge_open_event c = record {
  organization_id = c.organization_id;
  type = remote_open;
  message = lit "Door opened via local bridge (command #" ∷ Part.number c.id ∷ lit ")" ∷ [];
  controller_id = some c.controller_id;
  door_id = get_key c.payload (λ p. p.door_id);
  cardholder_id = none;
  credential_id = none;
  details =
      ("dispatch", word "bridge")
      ∷ ("requested_by_id", json_id (get_key c.payload (λ p. p.requested_by_id)))
      ∷ [];
  external_id = none;
  occurred_at = none;
}

abbrev pub dual_open_event : GatewayCommand → NewEvent
dual_open_event c = record {
  organization_id = c.organization_id;
  type = remote_open;
  message =
      lit "Door opened under dual approval via local bridge (command #"
      ∷ Part.number c.id
      ∷ lit ")"
      ∷ [];
  controller_id = some c.controller_id;
  door_id = get_key c.payload (λ p. p.door_id);
  cardholder_id = none;
  credential_id = none;
  details =
      ("dispatch", word "bridge")
      ∷ ("dual_approval", flag true)
      ∷ ("requested_by_id", json_id (get_key c.payload (λ p. p.requested_by_id)))
      ∷ ("approved_by_id", json_id (get_key c.payload (λ p. p.approved_by_id)))
      ∷ [];
  external_id = none;
  occurred_at = none;
}

abbrev pub resolve_row : Bool → ℕ → DoorOpenRequest → DoorOpenRequest
resolve_row success now r = record r {
  status = if success then executed else failed;
  resolved_at = some now;
}

unfoldable pub finalize_dual_approval : Effects → GatewayCommand → ℕ → Bool → ℕ → Effects
unfolding record_event
finalize_dual_approval fx c request_id success now =
    elim (find_row (λ r. r.id == request_id) fx.requests) [
      | none ↦ fx
      | some req ↦
          if not (is_dispatched req.status)
          then fx
          else let requests =
              update_rows (λ r. r.id == request_id) (resolve_row success now) fx.requests in
            if success
            then record fx {
              requests = requests;
              log = (record_event fx.log now (dual_open_event c)).0;
            }
            else record fx { requests = requests }
    ]

abbrev pub reached : Bool → ControllerStatus
reached success = if success then online else offline

abbrev pub seen_at : Bool → ℕ → Option ℕ → Option ℕ
seen_at success now last = if success then some now else last

abbrev pub probe_row : Bool → ℕ → Controller → Controller
probe_row success now k = record k {
  status = reached success;
  last_seen_at = seen_at success now k.last_seen_at;
}

abbrev pub status_event : GatewayCommand → Controller → Bool → NewEvent
status_event c k success = record {
  organization_id = c.organization_id;
  type = if success then controller_online else controller_offline;
  message = lit "Controller " ∷ lit k.name ∷ lit " is " ∷ lit (status_value (reached success)) ∷ [];
  controller_id = some k.id;
  door_id = none;
  cardholder_id = none;
  credential_id = none;
  details = [];
  external_id = none;
  occurred_at = none;
}

unfoldable pub apply_ping : Effects → GatewayCommand → Bool → ℕ → Effects
unfolding record_event
apply_ping fx c success now = elim (find_row (λ k. k.id == c.controller_id) fx.controllers) [
  | none ↦ fx
  | some k ↦
      let controllers =
        update_rows (λ x. x.id == c.controller_id) (probe_row success now) fx.controllers in
      if status_eq (reached success) k.status
      then record fx { controllers = controllers }
      else record fx {
        controllers = controllers;
        log = (record_event fx.log now (status_event c k success)).0;
      }
]

unfoldable pub apply_open : Effects → GatewayCommand → Bool → ℕ → Effects
unfolding finalize_dual_approval record_event
apply_open fx c success now = elim (get_key c.payload (λ p. p.open_request_id)) [
  | some request_id ↦ finalize_dual_approval fx c request_id success now
  | none ↦
      if success then record fx { log = (record_event fx.log now (bridge_open_event c)).0 } else fx
]

unfoldable pub apply_outcome : Effects → GatewayCommand → Bool → ℕ → Effects
unfolding apply_open apply_ping
apply_outcome fx c success now = elim c.type [
  | open_door ↦ apply_open fx c success now
  | ping ↦ apply_ping fx c success now
  | _ ↦ fx
]
