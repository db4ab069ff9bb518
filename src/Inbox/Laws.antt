-- ===== src/Inbox/Laws.antt =====
-- What a batch of board events leaves behind: its counts, unique identifiers, and the rows that it adds.
use mathlib.Core.Path.{subst₂}
use cerradura_magnetica.Prelude.{
  ℕ, suc, ◌+◌, ◌≤◌, ◌≡◌, refl, inl, inr, Bool, true, false, ◌&&◌, ◌||◌, String, text_eq,
  text_eq_iff, List, [], ◌∷◌, ◌++◌, Option, none, some, arith, ◌==◌, if◌then◌else◌, holds,
  Bool-cases, length, length-append, exists_row, row_count, row_count-append, row_count-exists_row,
}
use cerradura_magnetica.Models.Gateway.{Event}
use cerradura_magnetica.Events.{EventLog, NewEvent, record_event, new_event}
use cerradura_magnetica.Inbox.{
  GatewayEventIn, Scope, Ingest, Verdict, repeated, refused, fresh, describe, has_external, already,
  load_scope, violates, uid_in, insert_in_savepoint, settle_verdict, ingest_one, ingest_each, start,
  ingest_events,
}

-- The events that were answered for.
abbrev handled : Ingest → ℕ
handled s = s.accepted + s.duplicates + length s.errors

-- One event is counted once, and recorded exactly if it is accepted.
settled_counts :
    (s : Ingest) (uid : String) (utcnow : ℕ) (v : Verdict)
    → let s' = settle_verdict s uid utcnow v in
      (handled s' ≡ suc (handled s))
      × (length s'.log.events + s.accepted ≡ length s.log.events + s'.accepted)
unfolding insert_in_savepoint record_event
settled_counts s uid utcnow repeated = (omega arith, refl)
settled_counts s uid utcnow (refused r) = (rw length-append (omega arith), refl)
settled_counts s uid utcnow (fresh ev) = elim (Bool-cases (violates s.log.events ev)) [
  | inl taken ↦ rw (taken, insert_in_savepoint) (omega arith, refl)
  | inr free ↦ rw (free, insert_in_savepoint) (omega arith, rw length-append (omega arith))
]

each_counts :
    (scope : Scope) (org : ℕ) (known : String → Bool) (utcnow : ℕ) (es : List GatewayEventIn)
    (s : Ingest)
    → let s' = ingest_each scope org known utcnow s es in
      (handled s' ≡ handled s + length es)
      × (length s'.log.events + s.accepted ≡ length s.log.events + s'.accepted)
unfolding ingest_each ingest_one
each_counts scope org known utcnow [] s = (omega arith, refl)
each_counts scope org known utcnow (e ∷ es) s =
    let v =
      if known e.event_uid || uid_in s.seen e.event_uid then repeated else describe scope org e in
    let (here, rows) = settled_counts s e.event_uid utcnow v in
    let (rest, rows') =
      each_counts scope org known utcnow es (settle_verdict s e.event_uid utcnow v) in
    (omega (arith, here, rest), omega (arith, rows, rows'))

-- Every event of a batch is answered for exactly once, as accepted, as a duplicate or as an error, and
-- the table grows by as many rows as were accepted.
pub ingest_events_counted :
    (db : Scope) (seen : List Event) (log : EventLog) (org : ℕ) (events : List GatewayEventIn)
    (utcnow : ℕ)
    → let s = ingest_events db seen log org events utcnow in
      (s.accepted + s.duplicates + length s.errors ≡ length events)
      × (length s.log.events ≡ length log.events + s.accepted)
unfolding ingest_events
ingest_events_counted db seen log org events utcnow =
    let (all, rows) =
      each_counts (load_scope db org) org (already seen org events) utcnow events (start log) in
    (omega (arith, all), omega (arith, rows))

-- The unique constraint: no two rows of an organization share an external id.
abbrev pub UniqueExternal : List Event → Type 0
UniqueExternal events = (org : ℕ) (uid : String) → row_count (has_external org uid) events ≤ 1

-- An external id under which an insert violates nothing is not taken.
not_taken :
    (events : List Event) (o : ℕ) (x : Option String) (org : ℕ) (uid : String)
    → holds x (λ y. exists_row (has_external o y) events) ≡ false
    → (o == org && holds x (λ y. text_eq y uid)) ≡ true
    → exists_row (has_external org uid) events ≡ false
not_taken events o none org uid legal same = absurd (ground arith)
not_taken events o (some y) org uid legal same =
    let owner : o ≡ org = ground arith in
    let key : y ≡ uid = ground (arith, text_eq_iff y uid) in
    subst₂ (λ a b. exists_row (has_external a b) events ≡ false) owner key legal

added-UniqueExternal :
    (events : List Event) (id utcnow : ℕ) (ev : NewEvent)
    → UniqueExternal events
    → violates events ev ≡ false
    → UniqueExternal (events ++ new_event id utcnow ev ∷ [])
added-UniqueExternal events id utcnow ev unique legal org uid =
    elim (Bool-cases (has_external org uid (new_event id utcnow ev))) [
      | inr other ↦ rw row_count-append (rw other (omega (arith, unique org uid)))
      | inl same ↦
          let none_yet =
            row_count-exists_row _ events
              (not_taken events ev.organization_id ev.external_id org uid legal same) in
          rw row_count-append (rw same (omega (arith, none_yet)))
    ]

settled-UniqueExternal :
    (s : Ingest) (uid : String) (utcnow : ℕ) (v : Verdict)
    → UniqueExternal s.log.events
    → UniqueExternal (settle_verdict s uid utcnow v).log.events
unfolding insert_in_savepoint record_event
settled-UniqueExternal s uid utcnow repeated unique = unique
settled-UniqueExternal s uid utcnow (refused r) unique = unique
settled-UniqueExternal s uid utcnow (fresh ev) unique =
    elim (Bool-cases (violates s.log.events ev)) [
      | inl taken ↦ rw (taken, insert_in_savepoint) unique
      | inr free ↦
          rw (free, insert_in_savepoint)
            (added-UniqueExternal s.log.events s.log.next_id utcnow ev unique free)
    ]

each-UniqueExternal :
    (scope : Scope) (org : ℕ) (known : String → Bool) (utcnow : ℕ) (es : List GatewayEventIn)
    (s : Ingest)
    → UniqueExternal s.log.events
    → UniqueExternal (ingest_each scope org known utcnow s es).log.events
unfolding ingest_each ingest_one
each-UniqueExternal scope org known utcnow [] s unique = unique
each-UniqueExternal scope org known utcnow (e ∷ es) s unique =
    each-UniqueExternal scope org known utcnow es (ingest_one scope org known utcnow s e)
      (settled-UniqueExternal s e.event_uid utcnow _ unique)

-- No batch gives two events of an organization one identifier, even when the look-up that it began
-- with was stale.
pub ingest_events-UniqueExternal :
    (db : Scope) (seen : List Event) (log : EventLog) (org : ℕ) (events : List GatewayEventIn)
    (utcnow : ℕ)
    → UniqueExternal log.events
    → UniqueExternal (ingest_events db seen log org events utcnow).log.events
unfolding ingest_events
ingest_events-UniqueExternal db seen log org events utcnow unique =
    each-UniqueExternal (load_scope db org) org (already seen org events) utcnow events (start log)
      unique
