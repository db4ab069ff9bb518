-- ===== src/Inbox/Origin.antt =====
-- Where the rows that a batch adds come from: the bridge's organization, and cards that are masked.
use mathlib.Core.List.{append-nil, append_assoc}
use mathlib.Core.Path.{subst}
use cerradura_magnetica.Prelude.{
  ℕ, ◌≡◌, refl, sym, ap, ◌∙◌, ◌⊎◌, inl, inr, Bool, true, false, ◌&&◌, ◌||◌, String, text_eq,
  text_eq_iff, text_eq_refl, List, [], ◌∷◌, ◌++◌, Option, none, some, ◌==◌, ==_iff, if◌then◌else◌,
  holds, Bool-cases, Option-cases, exists_row, exists_row-select, last_row, last_row-exists_row,
}
use cerradura_magnetica.Models.Gateway.{Controller, Event, Json, word}
use cerradura_magnetica.Events.{EventLog, NewEvent, record_event, new_event}
use cerradura_magnetica.Access.{same_codes, is_empty}
use cerradura_magnetica.Access.Swipe.{mask_card}
use cerradura_magnetica.Inbox.{
  GatewayEventIn, Scope, Ingest, Verdict, repeated, refused, fresh, describe, resolve_controller,
  own_controller, valid_id, serial_to_id, set_key, add_card, or_empty_dict, board_details, already,
  load_scope, violates, uid_in, insert_in_savepoint, settle_verdict, ingest_one, ingest_each, start,
  ingest_events,
}
use cerradura_magnetica.Inbox.Redelivery.{describe-fresh}

abbrev pub get_json : List (String × Json) → String → Option Json
get_json [] key = none
get_json ((k, x) ∷ entries) key =
    let rest = get_json entries key in if text_eq k key then some x else rest

get_json-set_key :
    (entries : List (String × Json)) (key : String) (x : Json)
    → get_json (set_key entries key x) key ≡ some x
get_json-set_key [] key x = rw (text_eq_refl key) refl
get_json-set_key ((k, y) ∷ entries) key x = elim (Bool-cases (text_eq k key)) [
  | inl own ↦ rw own (rw own refl)
  | inr other ↦ rw other (rw other (get_json-set_key entries key x))
]

get_json-set_key_other :
    (entries : List (String × Json)) (key key' : String) (x : Json)
    → text_eq key key' ≡ false
    → get_json (set_key entries key x) key' ≡ get_json entries key'
get_json-set_key_other [] key key' x ne = rw ne refl
get_json-set_key_other ((k, y) ∷ entries) key key' x ne = elim (Bool-cases (text_eq k key)) [
  | inl own ↦
      let same : k ≡ key = (text_eq_iff k key).0 own in
      let ne' : text_eq k key' ≡ false = ap (λ (t : String). text_eq t key') same ∙ ne in
      rw own (rw ne' refl)
  | inr other ↦ rw other (elim (Bool-cases (text_eq k key')) [
    | inl hit ↦ rw hit refl
    | inr miss ↦ rw miss (get_json-set_key_other entries key key' x ne)
  ])
]

board_details-source :
    (e : GatewayEventIn) → get_json (board_details e) "source" ≡ some (word "board")
unfolding board_details
board_details-source e =
    let entries = set_key (or_empty_dict e.details) "source" (word "board") in
    with_card entries e.card_number
      (get_json-set_key (or_empty_dict e.details) "source" (word "board"))
  where
    with_card :
        (entries : List (String × Json)) (card : Option (List ℕ))
        → get_json entries "source" ≡ some (word "board")
        → get_json (add_card entries card) "source" ≡ some (word "board")
    with_card entries none h = h
    with_card entries (some c) h = elim (Bool-cases (is_empty c)) [
      | inl blank ↦ rw blank h
      | inr written ↦
          rw written
            (get_json-set_key_other entries "card" "source" (Json.text (mask_card c)) refl ∙ h)
    ]

board_details-card :
    (e : GatewayEventIn) (c : List ℕ)
    → e.card_number ≡ some c
    → is_empty c ≡ false
    → get_json (board_details e) "card" ≡ some (Json.text (mask_card c))
unfolding board_details
board_details-card e c given written =
    rw (given, written)
      (get_json-set_key (set_key (or_empty_dict e.details) "source" (word "board")) "card"
        (Json.text (mask_card c)))

-- A controller that a batch is resolved to is the organization's.
abbrev OwnController : Scope → ℕ → ℕ → Type 0
OwnController db org cid =
    exists_row (λ (k : Controller). own_controller org k && k.id == cid) db.controllers ≡ true

serial_to_id-OwnController :
    (db : Scope) (org cid : ℕ) (serial : Option (List ℕ))
    → serial_to_id (load_scope db org) serial ≡ some cid
    → OwnController db org cid
serial_to_id-OwnController db org cid none h = cc
serial_to_id-OwnController db org cid (some serial) h = elim (Bool-cases (is_empty serial)) [
  | inl blank ↦ let nothing : none ≡ some cid = rw blank at h in cc
  | inr written ↦
      let found : _ ≡ some cid = rw written at h in
      elim (Option-cases (
        last_row (λ (k : Controller). same_codes k.serial_number serial)
          (load_scope db org).controllers)) [
            | inl absent ↦ let nothing : none ≡ some cid = rw absent at found in cc
            | inr (k, last) ↦
                let same : some k.id ≡ some cid = rw last at found in
                let equal : k.id ≡ cid = cc in
                exists_row-select (λ x. x.id == cid) (own_controller org) db.controllers
                  (last_row-exists_row (λ x. same_codes x.serial_number serial) (λ x. x.id == cid)
                    (load_scope db org).controllers last ((==_iff k.id cid).1 equal))
          ]
]

resolve_controller-OwnController :
    (db : Scope) (org cid : ℕ) (e : GatewayEventIn)
    → resolve_controller (load_scope db org) e ≡ some cid
    → OwnController db org cid
unfolding resolve_controller
resolve_controller-OwnController db org cid e h =
    elim (Bool-cases (holds e.controller_id (valid_id (load_scope db org)))) [
      | inr other ↦
          serial_to_id-OwnController db org cid e.controller_serial
            (rw (other, resolve_controller) at h)
      | inl valid ↦
          let given : e.controller_id ≡ some cid = rw (valid, resolve_controller) at h in
          let member : valid_id (load_scope db org) cid ≡ true = rw given at valid in
          exists_row-select (λ x. x.id == cid) (own_controller org) db.controllers member
    ]

-- `ev` is the row that reports `e`.
pub record IsReport (db : Scope) (org : ℕ) (e : GatewayEventIn) (ev : Event) : Type 0 where
  pub owner : ev.organization_id ≡ org
  pub key : ev.external_id ≡ some e.event_uid
  pub controller : (cid : ℕ) × (ev.controller_id ≡ some cid) × OwnController db org cid
  pub source : get_json ev.details "source" ≡ some (word "board")
  pub card :
      (c : List ℕ)
      → e.card_number ≡ some c
      → is_empty c ≡ false
      → get_json ev.details "card" ≡ some (Json.text (mask_card c))

-- The rows report some of the events, in the events' order.
pub data Reported (db : Scope) (org : ℕ) : List GatewayEventIn → List Event → Type 0 where
  done : Reported db org [] []
  skipped :
      {e : GatewayEventIn} {es : List GatewayEventIn} {rows : List Event}
      → Reported db org es rows
      → Reported db org (e ∷ es) rows
  recorded :
      {e : GatewayEventIn} {es : List GatewayEventIn} {ev : Event} {rows : List Event}
      → IsReport db org e ev
      → Reported db org es rows
      → Reported db org (e ∷ es) (ev ∷ rows)

board-IsReport :
    (db : Scope) (org : ℕ) (e : GatewayEventIn) (id utcnow : ℕ) (ev : NewEvent)
    → describe (load_scope db org) org e ≡ fresh ev
    → IsReport db org e (new_event id utcnow ev)
board-IsReport db org e id utcnow ev h =
    let (cid, type, known, same) = describe-fresh (load_scope db org) org e h in
    subst (λ x. IsReport db org e (new_event id utcnow x)) (sym same)
      (record {
        owner = refl;
        key = refl;
        controller = (cid, refl, resolve_controller-OwnController db org cid e known);
        source = board_details-source e;
        card = board_details-card e;
      })

-- What settling one event adds to the log: nothing, or one row that reports it.
abbrev Grows : Scope → ℕ → GatewayEventIn → EventLog → EventLog → Type 0
Grows db org e log log' =
    (log'.events ≡ log.events)
    ⊎ ((ev : Event) × (log'.events ≡ log.events ++ ev ∷ []) × IsReport db org e ev)

described-Grows :
    (db : Scope) (org : ℕ) (s : Ingest) (e : GatewayEventIn) (utcnow : ℕ) (v : Verdict)
    → describe (load_scope db org) org e ≡ v
    → Grows db org e s.log (settle_verdict s e.event_uid utcnow v).log
unfolding insert_in_savepoint record_event
described-Grows db org s e utcnow repeated h = inl refl
described-Grows db org s e utcnow (refused r) h = inl refl
described-Grows db org s e utcnow (fresh ev) h = elim (Bool-cases (violates s.log.events ev)) [
  | inl clash ↦ rw (clash, insert_in_savepoint) (inl refl)
  | inr free ↦
      rw (free, insert_in_savepoint)
        (inr (
          new_event s.log.next_id utcnow ev,
          refl,
          board-IsReport db org e s.log.next_id utcnow ev h,
        ))
]

one-Grows :
    (db : Scope) (org : ℕ) (known : String → Bool) (s : Ingest) (e : GatewayEventIn) (utcnow : ℕ)
    → Grows db org e s.log (ingest_one (load_scope db org) org known utcnow s e).log
unfolding ingest_one
one-Grows db org known s e utcnow =
    elim (Bool-cases (known e.event_uid || uid_in s.seen e.event_uid)) [
      | inl again ↦ rw (again, ingest_one) (inl refl)
      | inr first ↦ rw (first, ingest_one) (described-Grows db org s e utcnow _ refl)
    ]

each-Reported :
    (db : Scope) (org : ℕ) (known : String → Bool) (utcnow : ℕ) (es : List GatewayEventIn)
    (s : Ingest)
    → (rows : List Event) × ((ingest_each (load_scope db org) org known utcnow s es).log.events
        ≡ s.log.events ++ rows)
      × Reported db org es rows
unfolding ingest_each
each-Reported db org known utcnow [] s = ([], sym (append-nil s.log.events), done)
each-Reported db org known utcnow (e ∷ es) s =
    let (rows, grown, reported) =
      each-Reported db org known utcnow es (ingest_one (load_scope db org) org known utcnow s e) in
    elim (one-Grows db org known s e utcnow) [
      | inl same ↦ (rows, grown ∙ ap (λ l. l ++ rows) same, skipped reported)
      | inr (ev, one, report) ↦ (
        ev ∷ rows,
        grown ∙ ap (λ l. l ++ rows) one ∙ append_assoc s.log.events (ev ∷ []) rows,
        recorded report reported,
      )
    ]

-- The rows that a batch adds stand behind those that were there, and report some of its events in
-- their order. Each belongs to the bridge's organization under the event's identifier, names a
-- controller of that organization, says that its source is the board whatever the board said, and
-- shows of a card number that came with the event only the masked form in its place.
pub ingest_events-Reported :
    (db : Scope) (seen : List Event) (log : EventLog) (org : ℕ) (events : List GatewayEventIn)
    (utcnow : ℕ)
    → (rows : List Event) × ((ingest_events db seen log org events utcnow).log.events
        ≡ log.events ++ rows)
      × Reported db org events rows
unfolding ingest_events
ingest_events-Reported db seen log org events utcnow =
    each-Reported db org (already seen org events) utcnow events (start log)
