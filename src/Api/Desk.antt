-- ===== src/Api/Desk.antt =====
-- What the handlers of backend/app/api/v1/doors.py read and write: the tables, their look-ups, and the
-- payloads and events of an opening.
use cerradura_magnetica.Prelude.{
  ℕ, Bool, true, String, List, [], ◌∷◌, none, some, Result, ◌==◌, find_row,
}
use cerradura_magnetica.Models.Gateway.{
  Controller, Door, DoorOpenRequest, Payload, remote_open, Part, lit, Json, flag,
}
use cerradura_magnetica.Events.{NewEvent, record_event}
use cerradura_magnetica.DualApproval.{mark_failed}
use cerradura_magnetica.Outbox.{Outbox}
use cerradura_magnetica.Effects.{json_id}
use cerradura_magnetica.Bridge.{Platform}
use cerradura_magnetica.Api.{ApiError, get_or_404}

pub record Desk : Type 0 where
  pub doors : List Door
  pub platform : Platform
  pub next_request : ℕ

pub record Actor : Type 0 where
  pub id : ℕ
  pub full_name : List ℕ

pub record CommandResult : Type 0 where
  pub success : Bool
  pub message : String

abbrev pub with_requests : Desk → List DoorOpenRequest → Desk
with_requests desk rows = record desk {
  platform = record desk.platform { fx = record desk.platform.fx { requests = rows } };
}

abbrev pub with_outbox : Desk → Outbox → Desk
with_outbox desk db = record desk { platform = record desk.platform { outbox = db } }

abbrev pub with_event : Desk → ℕ → NewEvent → Desk
with_event desk now e = record desk {
  platform = record desk.platform {
    fx = record desk.platform.fx { log = (record_event desk.platform.fx.log now e).0 };
  };
}

abbrev pub get_door : List Door → ℕ → ℕ → Result ApiError Door
get_door = get_or_404 (λ d. d.id) (λ d. d.organization_id)

abbrev pub get_controller : List Controller → ℕ → ℕ → Result ApiError Controller
get_controller = get_or_404 (λ k. k.id) (λ k. k.organization_id)

abbrev pub get_request : List DoorOpenRequest → ℕ → ℕ → Result ApiError DoorOpenRequest
get_request = get_or_404 (λ r. r.id) (λ r. r.organization_id)

abbrev pub approved_payload : Door → DoorOpenRequest → Actor → Payload
approved_payload door req actor = record {
  door = some door.number;
  door_id = some door.id;
  open_request_id = some req.id;
  requested_by_id = req.requested_by_id;
  approved_by_id = some actor.id;
  card_number = none;
  cards = none;
}

abbrev pub open_payload : Door → Actor → Payload
open_payload door actor = record {
  door = some door.number;
  door_id = some door.id;
  open_request_id = none;
  requested_by_id = some actor.id;
  approved_by_id = none;
  card_number = none;
  cards = none;
}

abbrev pub opened_event : ℕ → Controller → Door → List Part → List (String × Json) → NewEvent
opened_event org_id controller door message details = record {
  organization_id = org_id;
  type = remote_open;
  message = message;
  controller_id = some controller.id;
  door_id = some door.id;
  cardholder_id = none;
  credential_id = none;
  details = details;
  external_id = none;
  occurred_at = none;
}

abbrev pub approved_event : ℕ → Controller → Door → DoorOpenRequest → Actor → NewEvent
approved_event org_id controller door req actor =
    opened_event org_id controller door
      (lit door.name ∷ lit " opened under dual approval by " ∷ Part.text actor.full_name ∷ [])
      (("requested_by_id", json_id req.requested_by_id)
        ∷ ("approved_by_id", Json.number actor.id)
        ∷ ("dual_approval", flag true)
        ∷ [])

abbrev pub remote_event : ℕ → Controller → Door → Actor → NewEvent
remote_event org_id controller door actor =
    opened_event org_id controller door
      (lit door.name ∷ lit " opened remotely by " ∷ Part.text actor.full_name ∷ [])
      (("user_id", Json.number actor.id) ∷ [])

-- `failed = db.get(...)`, and its roll-back
abbrev pub undo_claim : List DoorOpenRequest → ℕ → List DoorOpenRequest
undo_claim rows req_id = elim (find_row (λ r. r.id == req_id) rows) [
  | none ↦ rows
  | some req ↦ mark_failed rows req
]
