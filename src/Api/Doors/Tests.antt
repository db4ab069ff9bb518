-- ===== src/Api/Doors/Tests.antt =====
-- A critical door: one operator's attempt, a request, and another operator's approval.
use cerradura_magnetica.Prelude.{
  ◌≡◌, ◌==◌, refl, find_row, length, Bool, true, false, String, List, [], ◌∷◌, none, some, map,
}
use cerradura_magnetica.Models.Gateway.{
  Controller, unknown, Door, controlled, DoorOpenRequest, executed,
}
use cerradura_magnetica.Outbox.{enqueue}
use cerradura_magnetica.DualApproval.{new_request, create_request, claim_for_approval}
use cerradura_magnetica.Bridge.{GatewayBridge, acknowledge_command}
use cerradura_magnetica.Api.Doors.Completion.{IsReady, leased_platform, approved_opens}
use cerradura_magnetica.Api.{get_or_404}
use cerradura_magnetica.Api.Dispatch.{enqueue_command, command_key}
use cerradura_magnetica.Api.Desk.{Desk, Actor, approved_payload}
use cerradura_magnetica.Api.Doors.{
  open_door_call, create_open_request, approve_open_request, open_claimed, dispatch_approved,
}
use cerradura_magnetica.Api.Doors.Guarding.{Guarded}
use cerradura_magnetica.Api.Doors.TwoPeople.{
  Call, opens, requests, approves, run, critical_two_people,
}

abbrev board : Controller
board = record {
  id = 4;
  organization_id = 1;
  site_timezone = none;
  name = "Lobby";
  serial_number = [];
  ip_address = none;
  status = unknown;
  last_seen_at = none;
}

abbrev vault : Door
vault = record {
  id = 9;
  organization_id = 1;
  controller_id = 4;
  number = 2;
  name = "Vault";
  mode = controlled;
  requires_dual_approval = true;
}

abbrev desk : Desk
desk = record {
  doors = vault ∷ [];
  platform = record {
    outbox = record { commands = []; next_id = 1 };
    fx = record {
      controllers = board ∷ [];
      requests = [];
      log = record { events = []; next_id = 1; info = [] };
    };
    bridges = [];
  };
  next_request = 1;
}

abbrev ana : Actor
ana = record { id = 3; full_name = b'A' ∷ [] }

abbrev eva : Actor
eva = record { id = 5; full_name = b'E' ∷ [] }

abbrev no_gateway : Controller → Door → Bool × String
no_gateway controller door = (false, "no answer")

-- What the approvers load: the request that the first operator made.
abbrev loaded : List DoorOpenRequest
loaded = new_request 1 1 9 4 3 none 320 ∷ []

-- An attempt to open at once, a request, an approval by the requester, and one by another operator.
abbrev calls : List Call
calls =
    opens true 9 1 ana none "u1" 10
    ∷ requests [] 9 1 ana none 300 20
    ∷ approves true loaded 1 1 ana "u2" 30
    ∷ approves true loaded 1 1 eva "u3" 40
    ∷ []

abbrev final : Desk
final = run no_gateway desk calls

queued :
    map (λ c. c.payload) final.platform.outbox.commands
    ≡ some (approved_payload vault (new_request 1 1 9 4 3 none 320) eva) ∷ []
unfolding open_door_call create_open_request approve_open_request open_claimed dispatch_approved
    get_or_404 create_request claim_for_approval enqueue_command enqueue command_key
queued = refl

critical_two_people_example : Guarded final
critical_two_people_example = critical_two_people no_gateway calls desk tt

-- The desk once the first operator has asked, and the second operator's approval.
abbrev waiting : Desk
waiting = record desk {
  platform = record desk.platform { fx = record desk.platform.fx { requests = loaded } };
}

abbrev asked : DoorOpenRequest
asked = new_request 1 1 9 4 3 none 320

abbrev site_bridge : GatewayBridge
site_bridge = record {
  id = 1;
  organization_id = 1;
  cert_fingerprint = "aa";
  secret_hash = none;
  is_active = true;
  last_seen_at = none;
}

waiting-IsReady : IsReady no_gateway waiting 1 asked vault board eva "u3" 40
unfolding get_or_404
waiting-IsReady = record {
  loaded = refl;
  door_found = refl;
  board_found = refl;
  other_person = refl;
  still_open = refl;
  in_time = refl;
  alone = refl;
  key_free = refl;
  id_free = refl;
}

approved_opens_example :
    let p = (approve_open_request no_gateway true loaded waiting 1 1 eva "u3" 40).0.platform in
    let leased = leased_platform 1 "w" 50 60 p in
    let fx = (acknowledge_command leased site_bridge 1 "w" true none none 70).0.fx in
    (find_row (λ x. x.id == 1) fx.requests
      ≡ some (record asked { approved_by_id = some 5; status = executed; resolved_at = some 70 }))
    × (length fx.log.events ≡ 1)
approved_opens_example =
    approved_opens no_gateway waiting 1 asked vault board eva "u3" 40 site_bridge refl "w" 50 60 70
      none waiting-IsReady
