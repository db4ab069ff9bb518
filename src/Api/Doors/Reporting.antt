-- ===== src/Api/Doors/Reporting.antt =====
-- The bridge's report that a queued, approved open is done, and what it leaves on the platform.
use cerradura_magnetica.Prelude.{
  ℕ, ◌≡◌, refl, ap, true, String, text_eq_refl, Option, none, some, ok, ◌==◌, find_row, update_rows,
}
use cerradura_magnetica.Models.Gateway.{
  DoorOpenRequest, dispatched, is_dispatched, open_door, Payload, GatewayCommand,
}
use cerradura_magnetica.Events.{record_event}
use cerradura_magnetica.Outbox.{new_command, lease, acknowledge, settle, release_lease}
use cerradura_magnetica.Effects.{
  Effects, apply_outcome, apply_open, finalize_dual_approval, resolve_row, dual_open_event,
}
use cerradura_magnetica.Bridge.{
  GatewayBridge, Platform, get_command, settle_command, acknowledge_command,
}

module _ (p : Platform) (bridge : GatewayBridge) (id cid : ℕ) (key : String) (payload : Payload)
    (rid : ℕ) (r : DoorOpenRequest) (token : String) (at seconds now : ℕ)
    (result : Option String) where
  abbrev pub queued : GatewayCommand
  queued = new_command id bridge.organization_id cid open_door key (some payload) 5

  abbrev pub leased_open : GatewayCommand
  leased_open = lease token at seconds queued

  abbrev pub done_open : GatewayCommand
  done_open = release_lease (settle leased_open true result none now)

  -- The platform once the opening is reported: the request is resolved, and the event recorded.
  abbrev pub completed : Effects
  completed = record p.fx {
    requests = update_rows (λ x. x.id == rid) (resolve_row true now) p.fx.requests;
    log = (record_event p.fx.log now (dual_open_event done_open)).0;
  }

  finalized :
      find_row (λ x. x.id == rid) p.fx.requests ≡ some r
      → is_dispatched r.status ≡ true
      → finalize_dual_approval p.fx done_open rid true now ≡ completed
  unfolding finalize_dual_approval
  finalized found sent = rw (found, finalize_dual_approval) (rw sent refl)

  outcome-completed :
      payload.open_request_id ≡ some rid
      → find_row (λ x. x.id == rid) p.fx.requests ≡ some r
      → r.status ≡ dispatched
      → apply_outcome p.fx done_open true now ≡ completed
  unfolding apply_outcome apply_open finalize_dual_approval
  outcome-completed opens found sent = rw opens (finalized found (ap is_dispatched sent))

  acknowledged : acknowledge leased_open token true result none now ≡ ok done_open
  unfolding acknowledge
  acknowledged = rw (text_eq_refl token) refl

  pub reported-completed :
      payload.open_request_id ≡ some rid
      → find_row (λ x. x.id == rid) p.fx.requests ≡ some r
      → r.status ≡ dispatched
      → get_command p.outbox.commands id bridge.organization_id ≡ ok leased_open
      → (acknowledge_command p bridge id token true result none now).0.fx ≡ completed
  unfolding acknowledge_command settle_command
  reported-completed opens found sent got =
      rw (got, acknowledged, acknowledge_command) (outcome-completed opens found sent)
