-- ===== src/Api/Doors/Guarding.antt =====
-- No endpoint queues a command that opens a critical door on the word of one operator.
use mathlib.Core.Path.{subst}
use cerradura_magnetica.Prelude.{
  ℕ, ◌≡◌, ◌≢◌, refl, sym, ap, ◌∙◌, inl, inr, Bool, true, false, String, List, [], ◌∷◌, Option, none,
  some, arith, ok, err, Result-cases, ◌==◌, ==_iff, if◌then◌else◌, Bool-cases, Option-cases, holds,
  find_row, All, All-append,
}
use cerradura_magnetica.Models.Gateway.{
  Controller, Door, DoorOpenRequest, RequestStatus, CommandType, open_door, Payload, GatewayCommand,
}
use cerradura_magnetica.Outbox.{Outbox, has_key, new_command, insert_command, enqueue}
use cerradura_magnetica.Effects.{get_key}
use cerradura_magnetica.DualApproval.{claim_for_approval, self_approval, reject, create_request}
use cerradura_magnetica.Api.{get_or_404-eq-ok}
use cerradura_magnetica.Api.Dispatch.{enqueue_command, command_key, key_suffix}
use cerradura_magnetica.Api.Desk.{
  Desk, Actor, with_requests, get_door, get_controller, get_request, approved_payload, open_payload,
}
use cerradura_magnetica.Api.Doors.{
  approval_target, dispatch_approved, execute_approved, open_claimed, approve_open_request,
  open_found, open_door_call, reject_open_request, create_open_request,
}

abbrev pub is_critical : List Door → ℕ → Bool
is_critical doors id =
    holds (find_row (λ (d : Door). d.id == id) doors) (λ d. d.requires_dual_approval)

-- What it takes to open: for a critical door, an approver who is not the requester.
abbrev pub TakesTwo : List Door → CommandType → Option Payload → Type 0
TakesTwo doors type payload =
    type ≡ open_door
    → (id : ℕ) → get_key payload (λ p. p.door_id) ≡ some id
    → is_critical doors id ≡ true
    → (u : ℕ) × (get_key payload (λ p. p.approved_by_id) ≡ some u)
      × (get_key payload (λ p. p.requested_by_id) ≢ some u)

abbrev pub IsGuarded : List Door → GatewayCommand → Type 0
IsGuarded doors c = TakesTwo doors c.type c.payload

pub All-find_row {ℓ κ} :
    {A : Type ℓ} (P : A → Type κ) (p : A → Bool) (xs : List A) {a : A}
    → All P xs
    → find_row p xs ≡ some a
    → P a
All-find_row P p [] {a} all found = absurd (ground arith)
All-find_row P p (x ∷ xs) {a} all found = elim (Bool-cases (p x)) [
  | inl hit ↦
      let here : some x ≡ some a = rw hit at found in let same : x ≡ a = cc in subst P same all.0
  | inr miss ↦ All-find_row P p xs all.1 (rw miss at found)
]

-- A queued command is one that was there or the new one.
enqueue-All :
    (P : GatewayCommand → Type 0) (db : Outbox) (org cid : ℕ) (type : CommandType) (key : String)
    (payload : Option Payload) (max_attempts : ℕ)
    → All P db.commands
    → ((id : ℕ) → P (new_command id org cid type key payload max_attempts))
    → All P (enqueue db db org cid type key payload max_attempts).0.commands
unfolding enqueue insert_command
enqueue-All P db org cid type key payload max_attempts all new =
    elim (Option-cases (find_row (has_key org key) db.commands)) [
      | inr (c, present) ↦ rw (present, enqueue) all
      | inl absent ↦
          rw (absent, enqueue)
            (rw (absent, insert_command) (All-append P db.commands _ all (new db.next_id, tt)))
    ]

enqueue_command-IsGuarded :
    (doors : List Door) (db : Outbox) (org cid : ℕ) (type : CommandType) (payload : Option Payload)
    (key : Option String) (uuid : String)
    → All (IsGuarded doors) db.commands
    → TakesTwo doors type payload
    → All (IsGuarded doors) (enqueue_command db db org cid type payload key uuid).0.commands
unfolding enqueue_command
enqueue_command-IsGuarded doors db org cid type payload key uuid all new =
    enqueue-All (IsGuarded doors) db org cid type (command_key type cid (key_suffix key uuid))
      payload 5 all (λ id. new)

-- A claim that succeeds is not made by the requester.
claim-distinct :
    (rows : List DoorOpenRequest) (req : DoorOpenRequest) (approver : ℕ) (target : RequestStatus)
    (now : ℕ)
    → (claim_for_approval rows req approver target now).1 ≡ ok tt
    → req.requested_by_id ≢ some approver
unfolding claim_for_approval
claim-distinct rows req approver target now done same =
    let self : holds req.requested_by_id (λ u. u == approver) ≡ true =
      ap (λ o. holds o (λ u. u == approver)) same ∙ (==_iff approver approver).1 refl in
    let stuck : err self_approval ≡ ok tt = rw (self, claim_for_approval) at done in cc

approved-TakesTwo :
    (doors : List Door) (door : Door) (req : DoorOpenRequest) (actor : Actor)
    → req.requested_by_id ≢ some actor.id
    → TakesTwo doors open_door (some (approved_payload door req actor))
approved-TakesTwo doors door req actor distinct is_open id at critical = (actor.id, refl, distinct)

open-TakesTwo :
    (doors : List Door) (door : Door) (org id : ℕ) (actor : Actor)
    → get_door doors id org ≡ ok door
    → door.requires_dual_approval ≡ false
    → TakesTwo doors open_door (some (open_payload door actor))
open-TakesTwo doors door org id actor found free is_open n at critical =
    let (row, own, _) = get_or_404-eq-ok (λ d. d.id) (λ d. d.organization_id) doors id org found in
    let same : door.id ≡ n = cc in
    let here : find_row (λ d. d.id == n) doors ≡ some door =
      subst (λ x. find_row (λ d. d.id == x) doors ≡ some door) (sym own ∙ same) row in
    let not_critical : is_critical doors n ≡ false =
      ap (λ o. holds o (λ d. d.requires_dual_approval)) here ∙ free in
    cc

abbrev pub Guarded : Desk → Type 0
Guarded desk = All (IsGuarded desk.doors) desk.platform.outbox.commands

module _ (gateway : Controller → Door → Bool × String) where
  opened-Guarded :
      (bridge_mode : Bool) (desk : Desk) (rows : List DoorOpenRequest) (org : ℕ) (door : Door)
      (controller : Controller) (req : DoorOpenRequest) (actor : Actor) (uuid : String) (now : ℕ)
      → Guarded desk
      → req.requested_by_id ≢ some actor.id
      → Guarded (
          if bridge_mode
          then dispatch_approved (with_requests desk rows) org door controller req actor uuid
          else execute_approved gateway (with_requests desk rows) org door controller req actor now)
  unfolding dispatch_approved execute_approved
  opened-Guarded true desk rows org door controller req actor uuid now all distinct =
      enqueue_command-IsGuarded desk.doors desk.platform.outbox org controller.id open_door
        (some (approved_payload door req actor)) none uuid all
        (approved-TakesTwo desk.doors door req actor distinct)
  opened-Guarded false desk rows org door controller req actor uuid now all distinct =
      elim (Bool-cases (gateway controller door).0) [
        | inl success ↦ rw (success, execute_approved) all
        | inr failure ↦ rw (failure, execute_approved) all
      ]

  open_claimed-Guarded :
      (bridge_mode : Bool) (desk : Desk) (rows : List DoorOpenRequest) (org : ℕ)
      (req : DoorOpenRequest) (actor : Actor) (uuid : String) (now : ℕ)
      → Guarded desk
      → req.requested_by_id ≢ some actor.id
      → Guarded (open_claimed gateway bridge_mode desk rows org req actor uuid now).0
  unfolding open_claimed
  open_claimed-Guarded bridge_mode desk rows org req actor uuid now all distinct =
      elim (Result-cases (get_door desk.doors req.door_id org)) [
        | inr (e, gone) ↦ rw (gone, open_claimed) all
        | inl (door, found) ↦
            elim (Result-cases
              (get_controller desk.platform.fx.controllers req.controller_id org)) [
                | inr (e, gone) ↦ rw (found, gone, open_claimed) all
                | inl (controller, board) ↦
                    rw (found, board, open_claimed)
                      (opened-Guarded bridge_mode desk rows org door controller req actor uuid now
                        all distinct)
              ]
      ]

  pub approve_open_request-Guarded :
      (bridge_mode : Bool) (seen : List DoorOpenRequest) (desk : Desk) (id org : ℕ) (actor : Actor)
      (uuid : String) (now : ℕ)
      → Guarded desk
      → Guarded (approve_open_request gateway bridge_mode seen desk id org actor uuid now).0
  unfolding approve_open_request
  approve_open_request-Guarded bridge_mode seen desk id org actor uuid now all =
      elim (Result-cases (get_request seen id org)) [
        | inr (e, gone) ↦ rw (gone, approve_open_request) all
        | inl (req, found) ↦
            let claim =
              claim_for_approval desk.platform.fx.requests req actor.id
                (approval_target bridge_mode) now in
            elim (Result-cases claim.1) [
              | inr (e, refused) ↦ rw (found, refused, approve_open_request) all
              | inl (tt, done) ↦
                  rw (found, done, approve_open_request)
                    (open_claimed-Guarded bridge_mode desk claim.0 org req actor uuid now all (
                      claim-distinct desk.platform.fx.requests req actor.id
                        (approval_target bridge_mode) now done))
            ]
      ]

  open_found-Guarded :
      (bridge_mode : Bool) (desk : Desk) (org id : ℕ) (door : Door) (controller : Controller)
      (actor : Actor) (key : Option String) (uuid : String) (now : ℕ)
      → Guarded desk
      → get_door desk.doors id org ≡ ok door
      → door.requires_dual_approval ≡ false
      → Guarded (open_found gateway bridge_mode desk org door controller actor key uuid now).0
  unfolding open_found
  open_found-Guarded true desk org id door controller actor key uuid now all found free =
      enqueue_command-IsGuarded desk.doors desk.platform.outbox org controller.id open_door
        (some (open_payload door actor)) key uuid all
        (open-TakesTwo desk.doors door org id actor found free)
  open_found-Guarded false desk org id door controller actor key uuid now all found free =
      elim (Bool-cases (gateway controller door).0) [
        | inl success ↦ rw (success, open_found) all
        | inr failure ↦ rw (failure, open_found) all
      ]

  pub open_door_call-Guarded :
      (bridge_mode : Bool) (desk : Desk) (id org : ℕ) (actor : Actor) (key : Option String)
      (uuid : String) (now : ℕ)
      → Guarded desk
      → Guarded (open_door_call gateway bridge_mode desk id org actor key uuid now).0
  unfolding open_door_call
  open_door_call-Guarded bridge_mode desk id org actor key uuid now all =
      elim (Result-cases (get_door desk.doors id org)) [
        | inr (e, gone) ↦ rw (gone, open_door_call) all
        | inl (door, found) ↦ elim (Bool-cases door.requires_dual_approval) [
          | inl critical ↦ rw (found, critical, open_door_call) all
          | inr free ↦
              elim (Result-cases
                (get_controller desk.platform.fx.controllers door.controller_id org)) [
                  | inr (e, gone) ↦ rw (found, free, gone, open_door_call) all
                  | inl (controller, board) ↦
                      rw (found, free, board, open_door_call)
                        (open_found-Guarded bridge_mode desk org id door controller actor key uuid
                          now all found free)
                ]
        ]
      ]

pub reject_open_request-Guarded :
    (seen : List DoorOpenRequest) (desk : Desk) (id org now : ℕ)
    → Guarded desk
    → Guarded (reject_open_request seen desk id org now).0
unfolding reject_open_request
reject_open_request-Guarded seen desk id org now all =
    elim (Result-cases (get_request seen id org)) [
      | inr (e, gone) ↦ rw (gone, reject_open_request) all
      | inl (req, found) ↦ elim (Result-cases (reject desk.platform.fx.requests req now).1) [
        | inr (e, refused) ↦ rw (found, refused, reject_open_request) all
        | inl (tt, done) ↦ rw (found, done, reject_open_request) all
      ]
    ]

pub create_open_request-Guarded :
    (seen : List DoorOpenRequest) (desk : Desk) (id org : ℕ) (actor : Actor)
    (reason : Option String) (ttl now : ℕ)
    → Guarded desk
    → Guarded (create_open_request seen desk id org actor reason ttl now).0
unfolding create_open_request
create_open_request-Guarded seen desk id org actor reason ttl now all =
    elim (Result-cases (get_door desk.doors id org)) [
      | inr (e, gone) ↦ rw (gone, create_open_request) all
      | inl (door, found) ↦ elim (Bool-cases door.requires_dual_approval) [
        | inr plain ↦ rw (found, plain, create_open_request) all
        | inl critical ↦
            elim (Result-cases (
              create_request seen
                (record { rows = desk.platform.fx.requests; next_id = desk.next_request }) org
                door.id door.controller_id actor.id reason ttl now)) [
                  | inr (e, refused) ↦ rw (found, critical, refused, create_open_request) all
                  | inl (made, done) ↦ rw (found, critical, done, create_open_request) all
                ]
      ]
    ]
