-- ===== src/Models/Gateway.antt =====
-- backend/app/models/base.py, gateway.py, infrastructure.py and events.py: controllers, doors,
-- dual-approval requests, outbox commands and events.
use cerradura_magnetica.Prelude.{ℕ, Bool, true, false, String, List, Option}

pub data ControllerStatus : Type 0 where
  online offline unknown : ControllerStatus

pub data DoorMode : Type 0 where
  controlled normally_open normally_closed : DoorMode

pub data RequestStatus : Type 0 where
  pending dispatched executed rejected expired failed : RequestStatus

abbrev pub is_pending : RequestStatus → Bool
is_pending pending = true
is_pending _ = false

abbrev pub is_dispatched : RequestStatus → Bool
is_dispatched dispatched = true
is_dispatched _ = false

pub data CommandType : Type 0 where
  ping open_door sync_time sync_permissions revoke_card : CommandType

pub data CommandStatus : Type 0 where
  pending leased succeeded failed : CommandStatus

pub data EventType : Type 0 where
  access_granted access_denied door_opened door_closed door_forced door_held_open : EventType
  remote_open controller_online controller_offline alarm : EventType

pub record Controller : Type 0 where
  pub id : ℕ
  pub organization_id : ℕ
  pub site_timezone : Option String
  pub name : String
  pub serial_number : List ℕ
  pub ip_address : Option String
  pub status : ControllerStatus
  pub last_seen_at : Option ℕ

pub record Door : Type 0 where
  pub id : ℕ
  pub organization_id : ℕ
  pub controller_id : ℕ
  pub number : ℕ
  pub name : String
  pub mode : DoorMode
  pub requires_dual_approval : Bool

pub record DoorOpenRequest : Type 0 where
  pub id : ℕ
  pub organization_id : ℕ
  pub door_id : ℕ
  pub controller_id : ℕ
  pub requested_by_id : Option ℕ
  pub approved_by_id : Option ℕ
  pub status : RequestStatus
  pub reason : Option String
  pub expires_at : ℕ
  pub resolved_at : Option ℕ

-- One card of a permission upload: the boards' door numbers, and the days of validity.
pub record PermissionCard : Type 0 where
  pub card_number : List ℕ
  pub doors : List ℕ
  pub valid_from : Option ℕ
  pub valid_to : Option ℕ

-- The keys that the code writes into a command's JSON payload; a key that is absent is `none`.
pub record Payload : Type 0 where
  pub door : Option ℕ
  pub door_id : Option ℕ
  pub open_request_id : Option ℕ
  pub requested_by_id : Option ℕ
  pub approved_by_id : Option ℕ
  pub card_number : Option (List ℕ)
  pub cards : Option (List PermissionCard)

pub record GatewayCommand : Type 0 where
  pub id : ℕ
  pub organization_id : ℕ
  pub controller_id : ℕ
  pub idempotency_key : String
  pub type : CommandType
  pub payload : Option Payload
  pub status : CommandStatus
  pub lease_token : Option String
  pub leased_at : Option ℕ
  pub leased_until : Option ℕ
  pub attempts : ℕ
  pub max_attempts : ℕ
  pub last_error : Option String
  pub result : Option String
  pub completed_at : Option ℕ

-- A message is kept as the parts of the f-string that it is made of.
pub data Part : Type 0 where
  lit : String → Part
  text : List ℕ → Part
  number : ℕ → Part

pub data Json : Type 0 where
  null : Json
  flag : Bool → Json
  number : ℕ → Json
  word : String → Json
  text : List ℕ → Json

pub record Event : Type 0 where
  pub id : ℕ
  pub organization_id : ℕ
  pub type : EventType
  pub message : List Part
  pub controller_id : Option ℕ
  pub door_id : Option ℕ
  pub cardholder_id : Option ℕ
  pub credential_id : Option ℕ
  pub details : List (String × Json)
  pub external_id : Option String
  pub occurred_at : ℕ
