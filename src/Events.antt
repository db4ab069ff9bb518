-- ===== src/Events.antt =====
-- backend/app/services/events.py: recording an event in the session's transaction. `info` is the session's
-- buffer of payloads for the live monitors, one for each event recorded; a payload carries the event's
-- columns. The hooks of the session that empty the buffer are not modelled.
use cerradura_magnetica.Prelude.{ℕ, suc, List, [], ◌∷◌, ◌++◌, Option, none, some, String}
use cerradura_magnetica.Models.Gateway.{Event, EventType, Part, Json}

pub record EventLog : Type 0 where
  pub events : List Event
  pub next_id : ℕ
  pub info : List (ℕ × Event)

-- The keyword arguments of `record_event`, with `utcnow` as the default of `occurred_at`.
pub record NewEvent : Type 0 where
  pub organization_id : ℕ
  pub type : EventType
  pub message : List Part
  pub controller_id : Option ℕ
  pub door_id : Option ℕ
  pub cardholder_id : Option ℕ
  pub credential_id : Option ℕ
  pub details : List (String × Json)
  pub external_id : Option String
  pub occurred_at : Option ℕ

abbrev pub or_default : Option ℕ → ℕ → ℕ
or_default none d = d
or_default (some t) d = t

abbrev pub new_event : ℕ → ℕ → NewEvent → Event
new_event id utcnow e = record {
  id = id;
  organization_id = e.organization_id;
  type = e.type;
  message = e.message;
  controller_id = e.controller_id;
  door_id = e.door_id;
  cardholder_id = e.cardholder_id;
  credential_id = e.credential_id;
  details = e.details;
  external_id = e.external_id;
  occurred_at = or_default e.occurred_at utcnow;
}

unfoldable pub record_event : EventLog → ℕ → NewEvent → EventLog × Event
record_event log utcnow e =
    let event = new_event log.next_id utcnow e in
    (
      record {
        events = log.events ++ event ∷ [];
        next_id = suc log.next_id;
        info = log.info ++ (e.organization_id, event) ∷ [];
      },
      event,
    )
