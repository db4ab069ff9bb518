-- ===== src/Api/Controllers.antt =====
-- backend/app/api/v1/controllers.py: the probe of a board and the setting of its clock. What the gateway
-- answers is a parameter. In direct dispatch the controller's row is loaded again after the round-trip,
-- from the tables as they then stand (`after`); audit rows are left out.
use Prim.Native.String.{◌++◌ as text_append}
use cerradura_magnetica.Prelude.{
  ℕ, Bool, true, String, [], ◌∷◌, none, some, Result, ok, err, if◌then◌else◌, ◌==◌, update_rows,
}
use cerradura_magnetica.Models.Gateway.{
  Controller, CommandType, ping, sync_time, GatewayCommand, controller_online, controller_offline,
  lit,
}
use cerradura_magnetica.Events.{NewEvent, record_event}
use cerradura_magnetica.Effects.{Effects, status_eq, status_value, reached, probe_row}
use cerradura_magnetica.Bridge.{Platform}
use cerradura_magnetica.Api.{ApiError}
use cerradura_magnetica.Api.Dispatch.{enqueue_command, str}
use cerradura_magnetica.Api.Desk.{CommandResult, get_controller}

abbrev pub probe_event : ℕ → Controller → Bool → NewEvent
probe_event org_id k success = record {
  organization_id = org_id;
  type = if success then controller_online else controller_offline;
  message = lit "Controller " ∷ lit k.name ∷ lit " is " ∷ lit (status_value (reached success)) ∷ [];
  controller_id = some k.id;
  door_id = none;
  cardholder_id = none;
  credential_id = none;
  details = [];
  external_id = none;
  occurred_at = none;
}

-- From the controller's row as it is loaded after the round-trip.
unfoldable pub record_probe : Effects → ℕ → ℕ → Controller → Bool → ℕ → Effects
record_probe fx controller_id org_id k success now =
    let controllers =
      update_rows (λ x. x.id == controller_id) (probe_row success now) fx.controllers in
    if status_eq (reached success) k.status
    then record fx { controllers = controllers }
    else record fx {
      controllers = controllers;
      log = (record_event fx.log now (probe_event org_id k success)).0;
    }

abbrev pub queue_for : Platform → ℕ → Controller → CommandType → String → Platform × GatewayCommand
queue_for p org_id k type uuid =
    let (outbox, c) = enqueue_command p.outbox p.outbox org_id k.id type none none uuid in
    (record p { outbox = outbox }, c)

module _ (gateway : Controller → Bool × String) where
  unfoldable pub ping_controller :
      Bool → Platform → Platform → ℕ → ℕ → String → ℕ → Platform × Result ApiError CommandResult
  ping_controller bridge_mode p after controller_id org_id uuid now =
      elim (get_controller p.fx.controllers controller_id org_id) [
        | err e ↦ (p, err e)
        | ok controller ↦
            let (queued, c) = queue_for p org_id controller ping uuid in
            let (success, message) = gateway controller in
            let direct : Platform × Result ApiError CommandResult =
              elim (get_controller after.fx.controllers controller_id org_id) [
                | err e ↦ (after, err e)
                | ok k ↦ (
                  record after { fx = record_probe after.fx controller_id org_id k success now },
                  ok (record { success = success; message = message }),
                )
              ] in
            if bridge_mode
            then (
              queued,
              ok (record {
                success = true;
                message =
                    text_append "Ping queued for the local bridge (#" (text_append (str c.id) ")");
              }),
            )
            else direct
      ]

  unfoldable pub sync_controller_time :
      Bool → Platform → ℕ → ℕ → String → Platform × Result ApiError CommandResult
  sync_controller_time bridge_mode p controller_id org_id uuid =
      elim (get_controller p.fx.controllers controller_id org_id) [
        | err e ↦ (p, err e)
        | ok controller ↦
            let (queued, c) = queue_for p org_id controller sync_time uuid in
            let (success, message) = gateway controller in
            if bridge_mode
            then (
              queued,
              ok (record { success = true; message = "Time sync queued for the local bridge" }),
            )
            else (p, ok (record { success = success; message = message }))
      ]
