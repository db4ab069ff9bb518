-- ===== src/Inbox/Redelivery.antt =====
-- A batch that a bridge delivers again: no event of it is recorded a second time.
use mathlib.Core.Path.{subst}
use cerradura_magnetica.Prelude.{
  ℕ, ◌≡◌, refl, sym, ◌∙◌, inl, inr, Bool, true, ◌||◌, String, text_eq, text_eq_iff, text_eq_refl,
  List, [], ◌∷◌, some, arith, Bool-cases, Option-cases, exists_row, exists_row-append_left,
  exists_row-append_last, All,
}
use cerradura_magnetica.Models.Gateway.{Event, EventType}
use cerradura_magnetica.Events.{EventLog, NewEvent, record_event}
use cerradura_magnetica.Inbox.{
  GatewayEventIn, Scope, Ingest, Verdict, repeated, refused, fresh, describe, resolve_controller,
  parse_event_type, board_event, has_external, already, load_scope, violates, uid_in,
  insert_in_savepoint, settle_verdict, ingest_one, ingest_each, start, ingest_events,
}

-- The log has a row of the organization with this identifier.
abbrev Taken : ℕ → EventLog → String → Type 0
Taken org log uid = exists_row (has_external org uid) log.events ≡ true

-- What is described as fresh is the event of a controller that was found and a type that was parsed.
pub describe-fresh :
    (scope : Scope) (org : ℕ) (e : GatewayEventIn) {ev : NewEvent}
    → describe scope org e ≡ fresh ev
    → (cid : ℕ) × (type : EventType) × (resolve_controller scope e ≡ some cid)
      × (ev ≡ board_event scope org e cid type)
unfolding describe
describe-fresh scope org e {ev} h = elim (Option-cases (resolve_controller scope e)) [
  | inl unknown ↦ let stuck : refused _ ≡ fresh ev = rw (unknown, describe) at h in cc
  | inr (cid, known) ↦ elim (Option-cases (parse_event_type e.type)) [
    | inl unknown ↦ let stuck : refused _ ≡ fresh ev = rw (known, unknown, describe) at h in cc
    | inr (type, parsed) ↦
        let same : fresh (board_event scope org e cid type) ≡ fresh ev =
          rw (known, parsed, describe) at h in
        let equal : board_event scope org e cid type ≡ ev = cc in (cid, type, known, sym equal)
  ]
]

settled-Taken :
    (org : ℕ) (s : Ingest) (uid other : String) (utcnow : ℕ) (v : Verdict)
    → Taken org s.log other
    → Taken org (settle_verdict s uid utcnow v).log other
unfolding insert_in_savepoint record_event
settled-Taken org s uid other utcnow repeated taken = taken
settled-Taken org s uid other utcnow (refused r) taken = taken
settled-Taken org s uid other utcnow (fresh ev) taken =
    elim (Bool-cases (violates s.log.events ev)) [
      | inl clash ↦ rw (clash, insert_in_savepoint) taken
      | inr free ↦ rw (free, insert_in_savepoint) (exists_row-append_left _ s.log.events _ taken)
    ]

-- After an event was settled as fresh, its identifier is taken.
fresh-Taken :
    (scope : Scope) (org : ℕ) (s : Ingest) (e : GatewayEventIn) (utcnow : ℕ) (cid : ℕ)
    (type : EventType)
    → Taken org
        (settle_verdict s e.event_uid utcnow (fresh (board_event scope org e cid type))).log
        e.event_uid
unfolding insert_in_savepoint record_event
fresh-Taken scope org s e utcnow cid type =
    elim (Bool-cases (violates s.log.events (board_event scope org e cid type))) [
      | inl clash ↦ rw (clash, insert_in_savepoint) clash
      | inr free ↦
          rw (free, insert_in_savepoint)
            (exists_row-append_last _ s.log.events _ (ground (arith, text_eq_refl e.event_uid)))
    ]

module _ (scope : Scope) (org : ℕ) (known : String → Bool) (utcnow : ℕ) where
  -- What counts as a repetition is in the log.
  abbrev Covered : Ingest → Type 0
  Covered s = (uid : String) → (known uid || uid_in s.seen uid) ≡ true → Taken org s.log uid

  -- An event that would be recorded is in the log.
  abbrev Settled : EventLog → GatewayEventIn → Type 0
  Settled log e = (ev : NewEvent) → describe scope org e ≡ fresh ev → Taken org log e.event_uid

  board-Covered :
      (s : Ingest) (e : GatewayEventIn) (cid : ℕ) (type : EventType)
      → Covered s
      → Covered (settle_verdict s e.event_uid utcnow (fresh (board_event scope org e cid type)))
  unfolding insert_in_savepoint record_event
  board-Covered s e cid type covered uid h =
      elim (Bool-cases (violates s.log.events (board_event scope org e cid type))) [
        | inl clash ↦
            rw (clash, insert_in_savepoint) (covered uid (rw (clash, insert_in_savepoint) at h))
        | inr free ↦ elim (Bool-cases (text_eq e.event_uid uid)) [
          | inl own ↦
              let same : e.event_uid ≡ uid = (text_eq_iff e.event_uid uid).0 own in
              subst
                (Taken org
                  (settle_verdict s e.event_uid utcnow
                    (fresh (board_event scope org e cid type))).log)
                same (fresh-Taken scope org s e utcnow cid type)
          | inr other ↦
              settled-Taken org s e.event_uid uid utcnow (fresh (board_event scope org e cid type))
                (covered uid (rw (free, other, insert_in_savepoint) at h))
        ]
      ]

  described-Covered :
      (s : Ingest) (e : GatewayEventIn) (v : Verdict)
      → describe scope org e ≡ v
      → Covered s
      → Covered (settle_verdict s e.event_uid utcnow v)
  described-Covered s e repeated h covered = covered
  described-Covered s e (refused r) h covered = covered
  described-Covered s e (fresh ev) h covered =
      let (cid, type, _, same) = describe-fresh scope org e h in
      subst (λ x. Covered (settle_verdict s e.event_uid utcnow (fresh x))) (sym same)
        (board-Covered s e cid type covered)

  described-Settled :
      (s : Ingest) (e : GatewayEventIn) (v : Verdict)
      → describe scope org e ≡ v
      → Settled (settle_verdict s e.event_uid utcnow v).log e
  described-Settled s e repeated h ev is_fresh = cc
  described-Settled s e (refused r) h ev is_fresh = cc
  described-Settled s e (fresh got) h ev is_fresh =
      let (cid, type, _, same) = describe-fresh scope org e h in
      subst (λ x. Taken org (settle_verdict s e.event_uid utcnow (fresh x)).log e.event_uid)
        (sym same) (fresh-Taken scope org s e utcnow cid type)

  one-Covered :
      (s : Ingest) (e : GatewayEventIn)
      → Covered s
      → let s' = ingest_one scope org known utcnow s e in Covered s' × Settled s'.log e
  unfolding ingest_one
  one-Covered s e covered = elim (Bool-cases (known e.event_uid || uid_in s.seen e.event_uid)) [
    | inl again ↦ rw (again, ingest_one) (covered, λ ev h. covered e.event_uid again)
    | inr first ↦
        rw (first, ingest_one) (described-Covered s e _ refl covered, described-Settled s e _ refl)
  ]

  each-Taken :
      (es : List GatewayEventIn) (s : Ingest) (uid : String)
      → Taken org s.log uid
      → Taken org (ingest_each scope org known utcnow s es).log uid
  unfolding ingest_each ingest_one
  each-Taken [] s uid taken = taken
  each-Taken (e ∷ es) s uid taken =
      each-Taken es (ingest_one scope org known utcnow s e) uid
        (settled-Taken org s e.event_uid uid utcnow _ taken)

  each-Settled :
      (es : List GatewayEventIn) (s : Ingest)
      → Covered s
      → All (Settled (ingest_each scope org known utcnow s es).log) es
  unfolding ingest_each
  each-Settled [] s covered = tt
  each-Settled (e ∷ es) s covered =
      let (covered', settled) = one-Covered s e covered in
      let s' = ingest_one scope org known utcnow s e in
      (λ ev h. each-Taken es s' e.event_uid (settled ev h), each-Settled es s' covered')

  described_again :
      (s : Ingest) (e : GatewayEventIn) (v : Verdict)
      → describe scope org e ≡ v
      → Settled s.log e
      → let s' = settle_verdict s e.event_uid utcnow v in
        (s'.log ≡ s.log) × (s'.accepted ≡ s.accepted)
  unfolding insert_in_savepoint
  described_again s e repeated h settled = (refl, refl)
  described_again s e (refused r) h settled = (refl, refl)
  described_again s e (fresh ev) h settled =
      let (cid, type, _, same) = describe-fresh scope org e h in
      let clash : violates s.log.events ev ≡ true =
        subst (λ x. violates s.log.events x ≡ true) (sym same) (settled ev h) in
      rw (clash, insert_in_savepoint) (refl, refl)

  one_again :
      (s : Ingest) (e : GatewayEventIn)
      → Settled s.log e
      → let s' = ingest_one scope org known utcnow s e in
        (s'.log ≡ s.log) × (s'.accepted ≡ s.accepted)
  unfolding ingest_one
  one_again s e settled = elim (Bool-cases (known e.event_uid || uid_in s.seen e.event_uid)) [
    | inl again ↦ rw (again, ingest_one) (refl, refl)
    | inr first ↦ rw (first, ingest_one) (described_again s e _ refl settled)
  ]

  -- A batch whose events are in the log already leaves it as it is.
  each_again :
      (es : List GatewayEventIn) (s : Ingest)
      → All (Settled s.log) es
      → let s' = ingest_each scope org known utcnow s es in
        (s'.log ≡ s.log) × (s'.accepted ≡ s.accepted)
  unfolding ingest_each
  each_again [] s settled = (refl, refl)
  each_again (e ∷ es) s settled =
      let s1 = ingest_one scope org known utcnow s e in
      let (log, accepted) = one_again s e settled.0 in
      let (log', accepted') =
        each_again es s1 (subst (λ l. All (Settled l) es) (sym log) settled.1) in
      (log' ∙ log, accepted' ∙ accepted)

-- A batch that is delivered a second time, to the same controllers, doors and cards, records nothing,
-- whatever its look-up of known identifiers saw and however much of the batch the first delivery had
-- recorded, where the first delivery's look-up saw no row that was not in the table.
pub redelivered :
    (db : Scope) (seen seen' : List Event) (log : EventLog) (org : ℕ) (events : List GatewayEventIn)
    (utcnow utcnow' : ℕ)
    → ((uid : String)
        → exists_row (has_external org uid) seen ≡ true
        → exists_row (has_external org uid) log.events ≡ true)
    → let s = ingest_events db seen log org events utcnow in
      let s' = ingest_events db seen' s.log org events utcnow' in
      (s'.log ≡ s.log) × (s'.accepted ≡ 0)
unfolding ingest_events
redelivered db seen seen' log org events utcnow utcnow' earlier =
    let scope = load_scope db org in
    let s = ingest_each scope org (already seen org events) utcnow (start log) events in
    each_again scope org (already seen' org events) utcnow' events (start s.log) (
      each-Settled scope org (already seen org events) utcnow events (start log)
        (λ uid h. earlier uid (ground (arith, h))))
