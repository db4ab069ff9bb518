-- ===== src/Api/Doors/Completion.antt =====
-- An approved open runs to its end: approved, queued, leased by a bridge and reported as done.
use mathlib.Core.Path.{subst}
use cerradura_magnetica.Prelude.{
  ℕ, suc, ◌≡◌, refl, sym, ap, ◌∙◌, Bool, true, false, ◌&&◌, String, List, [], ◌∷◌, ◌++◌, Option,
  none, some, arith, ok, leb, ltb, ◌==◌, ==_iff, if◌then◌else◌, holds, find_row, length,
  length-append, find_row-append, find_row-update_rows, update_rows, row_count,
}
use cerradura_magnetica.Models.Gateway.{
  Controller, Door, DoorOpenRequest, RequestStatus, dispatched, executed, is_pending, open_door,
  GatewayCommand,
}
use cerradura_magnetica.Events.{record_event}
use cerradura_magnetica.Outbox.{has_key, new_command, lease, leasable, lease_one}
use cerradura_magnetica.Effects.{Effects, resolve_row}
use cerradura_magnetica.DualApproval.{claim_for_approval, claimable, approve_row}
use cerradura_magnetica.Bridge.{GatewayBridge, Platform, acknowledge_command}
use cerradura_magnetica.Bridge.ExactlyOnce.{get_command_own}
use cerradura_magnetica.Api.{get_or_404-eq-ok}
use cerradura_magnetica.Api.Dispatch.{command_key, enqueue_command-added}
use cerradura_magnetica.Api.Desk.{
  Desk, Actor, get_door, get_controller, get_request, with_requests, with_outbox, approved_payload,
}
use cerradura_magnetica.Api.Doors.{dispatch_approved, open_claimed, approve_open_request}
use cerradura_magnetica.Api.Doors.Reporting.{completed, reported-completed}

-- A claim of a pending request by another operator within its window.
claim-ok :
    (rows : List DoorOpenRequest) (req : DoorOpenRequest) (approver : ℕ) (target : RequestStatus)
    (now : ℕ)
    → holds req.requested_by_id (λ u. u == approver) ≡ false
    → is_pending req.status ≡ true
    → leb req.expires_at now ≡ false
    → (row_count (claimable req.id now) rows == 1) ≡ true
    → claim_for_approval rows req approver target now
      ≡ (update_rows (claimable req.id now) (approve_row approver target now) rows, ok tt)
unfolding claim_for_approval
claim-ok rows req approver target now other pending open_window one =
    rw (other, pending, open_window, one, claim_for_approval) refl

-- The platform after a bridge's lease of a command, one conditional UPDATE.
abbrev pub leased_platform : ℕ → String → ℕ → ℕ → Platform → Platform
leased_platform id token at seconds p = record p {
  outbox = record p.outbox { commands = (lease_one p.outbox.commands token at seconds id).0 };
}

-- The desk of an approval that the bridge will carry out, and what is known when it comes.
module _ (gateway : Controller → Door → Bool × String) (desk : Desk) (org : ℕ)
    (req : DoorOpenRequest) (door : Door) (controller : Controller) (actor : Actor) (uuid : String)
    (now : ℕ) where
  abbrev pub all_requests : List DoorOpenRequest
  all_requests = desk.platform.fx.requests

  abbrev key : String
  key = command_key open_door controller.id uuid

  -- A pending request that has not expired and that another operator made, for a door and a controller
  -- of the organization; its identifier, the next command's and the drawn key are not taken twice.
  pub record IsReady : Type 0 where
    pub loaded : get_request all_requests req.id org ≡ ok req
    pub door_found : get_door desk.doors req.door_id org ≡ ok door
    pub board_found :
        get_controller desk.platform.fx.controllers req.controller_id org ≡ ok controller
    pub other_person : holds req.requested_by_id (λ u. u == actor.id) ≡ false
    pub still_open : is_pending req.status ≡ true
    pub in_time : leb req.expires_at now ≡ false
    pub alone : (row_count (claimable req.id now) all_requests == 1) ≡ true
    pub key_free :
        find_row
          (has_key org (command_key open_door controller.id uuid))
          desk.platform.outbox.commands
        ≡ none
    pub id_free :
        find_row (λ c. c.id == desk.platform.outbox.next_id) desk.platform.outbox.commands ≡ none

  abbrev claimed_rows : List DoorOpenRequest
  claimed_rows =
      update_rows (claimable req.id now) (approve_row actor.id dispatched now) all_requests

  abbrev command : GatewayCommand
  command =
      new_command desk.platform.outbox.next_id org controller.id open_door key
        (some (approved_payload door req actor)) 5

  abbrev approved_desk : Desk
  approved_desk = with_outbox (with_requests desk claimed_rows) (record {
    commands = desk.platform.outbox.commands ++ command ∷ [];
    next_id = suc desk.platform.outbox.next_id;
  })

  dispatched-approved :
      IsReady
      → dispatch_approved (with_requests desk claimed_rows) org door controller req actor uuid
        ≡ approved_desk
  unfolding dispatch_approved
  dispatched-approved ready =
      ap (λ x. with_outbox (with_requests desk claimed_rows) x.0)
        (enqueue_command-added desk.platform.outbox org controller.id open_door
          (some (approved_payload door req actor)) none uuid ready.key_free)

  approved-desk :
      IsReady
      → (approve_open_request gateway true all_requests desk req.id org actor uuid now).0
        ≡ approved_desk
  unfolding approve_open_request open_claimed
  approved-desk ready =
      let claim =
        claim-ok all_requests req actor.id dispatched now ready.other_person ready.still_open
          ready.in_time ready.alone in
      let won : (claim_for_approval all_requests req actor.id dispatched now).1 ≡ ok tt =
        ap (λ x. x.1) claim in
      rw (ready.loaded, won, approve_open_request)
        (rw (ready.door_found, ready.board_found, open_claimed)
          (ap (λ x. dispatch_approved (with_requests desk x.0) org door controller req actor uuid)
              claim
            ∙ dispatched-approved ready))

  -- The request's row once it is approved, and once it is executed.
  abbrev approved_row : DoorOpenRequest
  approved_row = approve_row actor.id dispatched now req

  dispatched_found : IsReady → find_row (λ x. x.id == req.id) claimed_rows ≡ some approved_row
  dispatched_found ready =
      let row =
        (get_or_404-eq-ok (λ r. r.id) (λ r. r.organization_id) all_requests req.id org
          ready.loaded).0 in
      let self : (req.id == req.id) ≡ true = (==_iff req.id req.id).1 refl in
      let later : ltb now req.expires_at ≡ true = ground (arith, ready.in_time) in
      let hit : claimable req.id now req ≡ true = ground (arith, self, later, ready.still_open) in
      find_row-update_rows (λ x. x.id == req.id) (claimable req.id now)
        (approve_row actor.id dispatched now) all_requests (λ x. refl) row
      ∙ ap (λ b. some (if b then approved_row else req)) hit

  module _ (bridge : GatewayBridge) (same_org : bridge.organization_id ≡ org) (token : String)
      (at seconds later : ℕ) (result : Option String) where
    leased_found :
        IsReady
        → find_row
            (λ c. c.id == desk.platform.outbox.next_id)
            (leased_platform desk.platform.outbox.next_id token at seconds
              approved_desk.platform).outbox.commands
          ≡ some (lease token at seconds command)
    unfolding lease_one
    leased_found ready =
        let id = desk.platform.outbox.next_id in
        let self : (id == id) ≡ true = (==_iff id id).1 refl in
        let row =
          find_row-append (λ c. c.id == id) desk.platform.outbox.commands command ready.id_free
            self in
        find_row-update_rows (λ c. c.id == id) (leasable at id) (lease token at seconds)
          approved_desk.platform.outbox.commands (λ c. refl) row
        ∙ ap (λ b. some (if b && true then lease token at seconds command else command)) self

    -- What is looked for at the end.
    abbrev IsDone : Effects → Type 0
    IsDone fx =
        (find_row (λ x. x.id == req.id) fx.requests
          ≡ some (record req {
            approved_by_id = some actor.id;
            status = executed;
            resolved_at = some later;
          }))
        × (length fx.log.events ≡ suc (length desk.platform.fx.log.events))

    abbrev report : GatewayBridge → Platform → Effects
    report b p =
        (acknowledge_command (leased_platform desk.platform.outbox.next_id token at seconds p) b
          desk.platform.outbox.next_id token true result none later).0.fx

    abbrev own_bridge : GatewayBridge
    own_bridge = record bridge { organization_id = org }

    completed-IsDone :
        IsReady
        → IsDone (
            completed
              (leased_platform desk.platform.outbox.next_id token at seconds approved_desk.platform)
              own_bridge
              desk.platform.outbox.next_id
              controller.id
              key
              (approved_payload door req actor)
              req.id
              approved_row
              token
              at
              seconds
              later
              result)
    unfolding record_event
    completed-IsDone ready =
        let self : (req.id == req.id) ≡ true = (==_iff req.id req.id).1 refl in
        (
          find_row-update_rows (λ x. x.id == req.id) (λ x. x.id == req.id) (resolve_row true later)
                claimed_rows (λ x. refl) (dispatched_found ready)
              ∙ ap (λ b. some (if b then resolve_row true later approved_row else approved_row))
                  self,
          rw length-append (omega arith),
        )

    report-completed :
        IsReady
        → report own_bridge approved_desk.platform
          ≡ completed
              (leased_platform desk.platform.outbox.next_id token at seconds approved_desk.platform)
              own_bridge
              desk.platform.outbox.next_id
              controller.id
              key
              (approved_payload door req actor)
              req.id
              approved_row
              token
              at
              seconds
              later
              result
    report-completed ready =
        reported-completed
          (leased_platform desk.platform.outbox.next_id token at seconds approved_desk.platform)
          own_bridge desk.platform.outbox.next_id controller.id key
          (approved_payload door req actor) req.id approved_row token at seconds later result refl
          (dispatched_found ready) refl
          (get_command_own
            (leased_platform desk.platform.outbox.next_id token at seconds
              approved_desk.platform).outbox.commands
            desk.platform.outbox.next_id org (lease token at seconds command) (leased_found ready)
            refl)

    -- A pending request that another operator approves in time is carried out, where its door and
    -- controller are the organization's, its row is the only one of its identifier, and the key drawn
    -- and the next command's identifier are unused: queued for the bridge by the approval, leased, and
    -- reported as done by a bridge of the organization, it is EXECUTED under the approver's name, and
    -- one event is recorded.
    pub approved_opens :
        IsReady
        → let p =
            (approve_open_request gateway true all_requests desk req.id org actor uuid
              now).0.platform in
          let fx =
            (acknowledge_command
              (leased_platform desk.platform.outbox.next_id token at seconds p)
              bridge
              desk.platform.outbox.next_id
              token
              true
              result
              none
              later).0.fx in
          (find_row (λ x. x.id == req.id) fx.requests
            ≡ some (record req {
              approved_by_id = some actor.id;
              status = executed;
              resolved_at = some later;
            }))
          × (length fx.log.events ≡ suc (length desk.platform.fx.log.events))
    approved_opens ready =
        let same : own_bridge ≡ bridge =
          ap (λ o. record bridge { organization_id = o }) (sym same_org) in
        subst
          (λ b. IsDone (
            report b
              (approve_open_request gateway true all_requests desk req.id org actor uuid
                now).0.platform))
          same
          (subst (λ (d : Desk). IsDone (report own_bridge d.platform)) (sym (approved-desk ready))
            (subst IsDone (sym (report-completed ready)) (completed-IsDone ready)))
