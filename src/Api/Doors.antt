-- ===== src/Api/Doors.antt =====
-- backend/app/api/v1/doors.py: remote opening, with and without the two-person rule. The look-up of a
-- request takes the table as it was loaded (`seen`) apart from the one that the updates run on. The
-- gateway that opens a door at once is a parameter: whether it succeeded, and its message. Audit rows
-- are left out.
pub mod Guarding
pub mod Bridging
pub mod TwoPeople
pub mod Reporting
pub mod Completion
-- pub mod Bridged
pub mod Tests
use cerradura_magnetica.Api.Desk.{
  Desk, Actor, CommandResult, with_requests, with_outbox, with_event, get_door, get_controller,
  get_request, approved_payload, open_payload, approved_event, remote_event, undo_claim,
}
use cerradura_magnetica.Prelude.{
  ℕ, Bool, true, not, String, List, Option, none, some, Result, ok, err, ◌==◌, if◌then◌else◌,
  find_row, update_rows,
}
use cerradura_magnetica.Models.Gateway.{
  Controller, Door, DoorMode, DoorOpenRequest, RequestStatus, dispatched, executed, open_door,
}
use cerradura_magnetica.DualApproval.{create_request, claim_for_approval, reject}
use cerradura_magnetica.Api.{ApiError, needs_dual_approval, no_dual_approval, approval}
use cerradura_magnetica.Api.Dispatch.{enqueue_command}

-- backend/app/schemas/infrastructure.py; a field that was not sent is `none`.
pub record DoorUpdate : Type 0 where
  pub name : Option String
  pub mode : Option DoorMode
  pub requires_dual_approval : Option Bool

abbrev pub sent_or {ℓ} : {A : Type ℓ} → Option A → A → A
sent_or none old = old
sent_or (some new) old = new

abbrev pub update_columns : DoorUpdate → Door → Door
update_columns body d = record d {
  name = sent_or body.name d.name;
  mode = sent_or body.mode d.mode;
  requires_dual_approval = sent_or body.requires_dual_approval d.requires_dual_approval;
}

unfoldable pub update_door : Desk → ℕ → ℕ → DoorUpdate → Desk × Result ApiError Door
update_door desk door_id org_id body = elim (get_door desk.doors door_id org_id) [
  | err e ↦ (desk, err e)
  | ok door ↦ (
    record desk { doors = update_rows (λ d. d.id == door.id) (update_columns body) desk.doors },
    ok (update_columns body door),
  )
]

abbrev pub approval_target : Bool → RequestStatus
approval_target bridge_mode = if bridge_mode then dispatched else executed

-- The approved open, queued for the bridge.
unfoldable pub dispatch_approved :
    Desk → ℕ → Door → Controller → DoorOpenRequest → Actor → String → Desk
dispatch_approved desk org_id door controller req actor uuid =
    let outbox = desk.platform.outbox in
    with_outbox desk
      (enqueue_command outbox outbox org_id controller.id open_door
        (some (approved_payload door req actor)) none uuid).0

module _ (gateway : Controller → Door → Bool × String) where
  -- The approved open at once; `desk` holds the claim.
  unfoldable pub execute_approved :
      Desk → ℕ → Door → Controller → DoorOpenRequest → Actor → ℕ → Desk
  execute_approved desk org_id door controller req actor now =
      if (gateway controller door).0
      then with_event desk now (approved_event org_id controller door req actor)
      else with_requests desk (undo_claim desk.platform.fx.requests req.id)

  -- From the claim that succeeded: `desk` is the state before it, `rows` the requests after it. A door
  -- or a controller that is gone raises before the commit, which undoes the claim.
  unfoldable pub open_claimed :
      Bool
      → Desk
      → List DoorOpenRequest
      → ℕ
      → DoorOpenRequest
      → Actor
      → String
      → ℕ
      → Desk × Result ApiError (Option DoorOpenRequest)
  open_claimed bridge_mode desk rows org_id req actor uuid now =
      elim (get_door desk.doors req.door_id org_id) [
        | err e ↦ (desk, err e)
        | ok door ↦ elim (get_controller desk.platform.fx.controllers req.controller_id org_id) [
          | err e ↦ (desk, err e)
          | ok controller ↦
              let claimed = with_requests desk rows in
              let opened =
                if bridge_mode
                then dispatch_approved claimed org_id door controller req actor uuid
                else execute_approved claimed org_id door controller req actor now in
              (opened, ok (find_row (λ r. r.id == req.id) opened.platform.fx.requests))
        ]
      ]

  unfoldable pub approve_open_request :
      Bool
      → List DoorOpenRequest
      → Desk
      → ℕ
      → ℕ
      → Actor
      → String
      → ℕ
      → Desk × Result ApiError (Option DoorOpenRequest)
  approve_open_request bridge_mode seen desk request_id org_id actor uuid now =
      elim (get_request seen request_id org_id) [
        | err e ↦ (desk, err e)
        | ok req ↦
            let (rows, claimed) =
              claim_for_approval desk.platform.fx.requests req actor.id
                (approval_target bridge_mode) now in
            elim claimed [
              | err e ↦ (with_requests desk rows, err (approval e))
              | ok _ ↦ open_claimed bridge_mode desk rows org_id req actor uuid now
            ]
      ]

  -- From the door that may be opened by one operator, and its controller.
  unfoldable pub open_found :
      Bool
      → Desk
      → ℕ
      → Door
      → Controller
      → Actor
      → Option String
      → String
      → ℕ
      → Desk × Result ApiError CommandResult
  open_found bridge_mode desk org_id door controller actor client_key uuid now =
      let outbox = desk.platform.outbox in
      let queued =
        enqueue_command outbox outbox org_id controller.id open_door
          (some (open_payload door actor)) client_key uuid in
      let (success, message) = gateway controller door in
      if bridge_mode
      then (
        with_outbox desk queued.0,
        ok (record { success = true; message = "Command queued for the local bridge" }),
      )
      else (
        (if success then with_event desk now (remote_event org_id controller door actor) else desk),
        ok (record { success = success; message = message }),
      )

  unfoldable pub open_door_call :
      Bool
      → Desk
      → ℕ
      → ℕ
      → Actor
      → Option String
      → String
      → ℕ
      → Desk × Result ApiError CommandResult
  open_door_call bridge_mode desk door_id org_id actor client_key uuid now =
      elim (get_door desk.doors door_id org_id) [
        | err e ↦ (desk, err e)
        | ok door ↦
            if door.requires_dual_approval
            then (desk, err needs_dual_approval)
            else elim (get_controller desk.platform.fx.controllers door.controller_id org_id) [
              | err e ↦ (desk, err e)
              | ok controller ↦
                  open_found bridge_mode desk org_id door controller actor client_key uuid now
            ]
      ]

unfoldable pub reject_open_request :
    List DoorOpenRequest → Desk → ℕ → ℕ → ℕ → Desk × Result ApiError (Option DoorOpenRequest)
reject_open_request seen desk request_id org_id now = elim (get_request seen request_id org_id) [
  | err e ↦ (desk, err e)
  | ok req ↦
      let (rows, rejected) = reject desk.platform.fx.requests req now in
      elim rejected [
        | err e ↦ (desk, err (approval e))
        | ok _ ↦ (with_requests desk rows, ok (find_row (λ r. r.id == req.id) rows))
      ]
]

unfoldable pub create_open_request :
    List DoorOpenRequest
    → Desk
    → ℕ
    → ℕ
    → Actor
    → Option String
    → ℕ
    → ℕ
    → Desk × Result ApiError DoorOpenRequest
create_open_request seen desk door_id org_id actor reason ttl now =
    elim (get_door desk.doors door_id org_id) [
      | err e ↦ (desk, err e)
      | ok door ↦
          if not door.requires_dual_approval
          then (desk, err no_dual_approval)
          else elim (create_request seen
              (record { rows = desk.platform.fx.requests; next_id = desk.next_request }) org_id
              door.id door.controller_id actor.id reason ttl now) [
                | err e ↦ (desk, err (approval e))
                | ok (db, request) ↦
                    (record (with_requests desk db.rows) { next_request = db.next_id }, ok request)
              ]
    ]
