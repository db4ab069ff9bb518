-- ===== src/Api/Doors/TwoPeople.antt =====
-- No critical door is opened through the bridge on the word of one operator, however the endpoints' and
-- the bridge's calls follow one another.
use cerradura_magnetica.Prelude.{ℕ, Bool, String, List, [], ◌∷◌, Option}
use cerradura_magnetica.Models.Gateway.{Controller, Door, DoorOpenRequest}
use cerradura_magnetica.Outbox.{Outbox}
use cerradura_magnetica.Bridge.{GatewayBridge, acknowledge_command, claim_commands}
use cerradura_magnetica.Api.Desk.{Desk, Actor}
use cerradura_magnetica.Api.Doors.{
  approve_open_request, open_door_call, reject_open_request, create_open_request,
}
use cerradura_magnetica.Api.Doors.Guarding.{
  Guarded, approve_open_request-Guarded, open_door_call-Guarded, reject_open_request-Guarded,
  create_open_request-Guarded,
}
use cerradura_magnetica.Api.Doors.Bridging.{acknowledge_command-IsGuarded, claim_commands-IsGuarded}

-- The calls of operators and of bridges, with what each has read before it writes.
pub data Call : Type 0 where
  opens : Bool → ℕ → ℕ → Actor → Option String → String → ℕ → Call
  requests : List DoorOpenRequest → ℕ → ℕ → Actor → Option String → ℕ → ℕ → Call
  approves : Bool → List DoorOpenRequest → ℕ → ℕ → Actor → String → ℕ → Call
  rejects : List DoorOpenRequest → ℕ → ℕ → ℕ → Call
  claims : Outbox → GatewayBridge → String → Option ℕ → ℕ → ℕ → ℕ → Call
  reports : GatewayBridge → ℕ → String → Bool → Option String → Option String → ℕ → Call

module _ (gateway : Controller → Door → Bool × String) where
  abbrev pub step : Desk → Call → Desk
  step desk (opens bridge_mode id org actor key uuid now) =
      (open_door_call gateway bridge_mode desk id org actor key uuid now).0
  step desk (requests seen id org actor reason ttl now) =
      (create_open_request seen desk id org actor reason ttl now).0
  step desk (approves bridge_mode seen id org actor uuid now) =
      (approve_open_request gateway bridge_mode seen desk id org actor uuid now).0
  step desk (rejects seen id org now) = (reject_open_request seen desk id org now).0
  step desk (claims seen bridge token cid seconds limit now) = record desk {
    platform = (claim_commands seen desk.platform bridge token cid seconds limit now).0;
  }
  step desk (reports bridge id token success result error now) = record desk {
    platform = (acknowledge_command desk.platform bridge id token success result error now).0;
  }

  abbrev pub run : Desk → List Call → Desk
  run desk [] = desk
  run desk (c ∷ cs) = run (step desk c) cs

  step-Guarded : (desk : Desk) (c : Call) → Guarded desk → Guarded (step desk c)
  step-Guarded desk (opens bridge_mode id org actor key uuid now) all =
      open_door_call-Guarded gateway bridge_mode desk id org actor key uuid now all
  step-Guarded desk (requests seen id org actor reason ttl now) all =
      create_open_request-Guarded seen desk id org actor reason ttl now all
  step-Guarded desk (approves bridge_mode seen id org actor uuid now) all =
      approve_open_request-Guarded gateway bridge_mode seen desk id org actor uuid now all
  step-Guarded desk (rejects seen id org now) all =
      reject_open_request-Guarded seen desk id org now all
  step-Guarded desk (claims seen bridge token cid seconds limit now) all =
      claim_commands-IsGuarded desk.doors seen desk.platform bridge token cid seconds limit now all
  step-Guarded desk (reports bridge id token success result error now) all =
      acknowledge_command-IsGuarded desk.doors desk.platform bridge id token success result error
        now all

  -- While no door is edited: however operators open doors, request, approve and reject, and bridges
  -- claim and report, in whatever order and on readings however stale, every command in the queue that
  -- opens a critical door names an approver who is not its requester, if this held of the queue before
  -- (it does of the empty one).
  pub critical_two_people :
      (calls : List Call) (desk : Desk) → Guarded desk → Guarded (run desk calls)
  critical_two_people [] desk all = all
  critical_two_people (c ∷ cs) desk all =
      critical_two_people cs (step desk c) (step-Guarded desk c all)
