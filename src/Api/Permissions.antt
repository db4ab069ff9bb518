-- ===== src/Api/Permissions.antt =====
-- backend/app/api/v1/controllers.py: sync_controller_permissions, the upload with which a board decides on
-- its own. The dictionary of cards is the list of its entries in order of their first insertion, a set of
-- door numbers is kept sorted, and a day is an instant's day in UTC. What the gateway answers is a
-- parameter; audit rows are left out.
pub mod Upload
pub mod Coverage
pub mod Tests
use Prim.Native.String.{◌++◌ as text_append}
use cerradura_magnetica.Prelude.{
  ℕ, ◌/◌, Bool, true, ◌&&◌, String, List, [], ◌∷◌, ◌++◌, Option, none, some, Result, ok, err, ltb,
  ◌==◌, if◌then◌else◌, length, select, find_row,
}
use mathlib.Core.Option
use cerradura_magnetica.Models.Gateway.{Controller, Door, Payload, PermissionCard, sync_permissions}
use cerradura_magnetica.Models.Access.{Cardholder, Credential, DoorRule, AccessLevel}
use cerradura_magnetica.Access.{Directory, same_codes, listed}
use cerradura_magnetica.Bridge.{Platform}
use cerradura_magnetica.Api.{ApiError}
use cerradura_magnetica.Api.Dispatch.{enqueue_command, str}
use cerradura_magnetica.Api.Desk.{CommandResult, get_controller}

-- `sorted` over a set: a number that is there already is not put in again.
abbrev pub insert_number : ℕ → List ℕ → List ℕ
insert_number n [] = n ∷ []
insert_number n (x ∷ xs) =
    let later = insert_number n xs in
    if n == x then x ∷ xs else if ltb n x then n ∷ x ∷ xs else x ∷ later

abbrev pub board_door : List Door → ℕ → Option Door
board_door doors id = find_row (λ (d : Door). d.id == id) doors

-- The numbers of the board's doors that the rules are for.
abbrev pub board_numbers : List Door → List DoorRule → List ℕ
board_numbers doors [] = []
board_numbers doors (r ∷ rs) = elim (board_door doors r.door_id) [
  | none ↦ board_numbers doors rs
  | some d ↦ insert_number d.number (board_numbers doors rs)
]

abbrev pub rules_in : List AccessLevel → List DoorRule
rules_in [] = []
rules_in (l ∷ ls) = l.door_rules ++ rules_in ls

abbrev pub access_levels : List AccessLevel → Cardholder → List AccessLevel
access_levels levels holder = select (λ (l : AccessLevel). listed l.cardholder_ids holder.id) levels

abbrev pub doors_of : List Door → List AccessLevel → Cardholder → List ℕ
doors_of doors levels holder = board_numbers doors (rules_in (access_levels levels holder))

abbrev pub day_of : ℕ → ℕ
day_of t = t / 86400

abbrev pub permission : Credential → List ℕ → PermissionCard
permission c doors = record {
  card_number = c.card_number;
  doors = doors;
  valid_from = Option.map day_of c.cardholder.valid_from;
  valid_to = Option.map day_of c.cardholder.valid_to;
}

-- `cards[number] = card`
abbrev pub put_card : PermissionCard → List PermissionCard → List PermissionCard
put_card k [] = k ∷ []
put_card k (x ∷ xs) =
    let later = put_card k xs in
    if same_codes x.card_number k.card_number then k ∷ xs else x ∷ later

abbrev pub add_permission : Credential → List ℕ → List PermissionCard → List PermissionCard
add_permission c [] cards = cards
add_permission c (n ∷ ns) cards = put_card (permission c (n ∷ ns)) cards

-- The loop over the credentials.
unfoldable pub collect :
    List Door → List AccessLevel → List Credential → List PermissionCard → List PermissionCard
collect doors levels [] cards = cards
collect doors levels (c ∷ cs) cards =
    let holder = c.cardholder in
    collect doors levels cs
      (if holder.is_active then add_permission c (doors_of doors levels holder) cards else cards)

abbrev pub is_current : ℕ → Credential → Bool
is_current org_id c = c.organization_id == org_id && c.is_active

unfoldable pub permission_cards : List Door → Directory → ℕ → ℕ → List PermissionCard
unfolding collect
permission_cards doors db org_id controller_id =
    collect (select (λ (d : Door). d.controller_id == controller_id) doors) db.levels
      (select (is_current org_id) db.credentials) []

abbrev pub cards_payload : List PermissionCard → Payload
cards_payload cards = record {
  door = none;
  door_id = none;
  open_request_id = none;
  requested_by_id = none;
  approved_by_id = none;
  card_number = none;
  cards = some cards;
}

module _ (gateway : Controller → List PermissionCard → Bool × String) where
  unfoldable pub sync_controller_permissions :
      Bool
      → Platform
      → List Door
      → Directory
      → ℕ
      → ℕ
      → String
      → Platform × Result ApiError CommandResult
  unfolding permission_cards
  sync_controller_permissions bridge_mode p doors db controller_id org_id uuid =
      elim (get_controller p.fx.controllers controller_id org_id) [
        | err e ↦ (p, err e)
        | ok controller ↦
            let cards = permission_cards doors db org_id controller.id in
            let (outbox, c) =
              enqueue_command p.outbox p.outbox org_id controller.id sync_permissions
                (some (cards_payload cards)) none uuid in
            let (success, message) = gateway controller cards in
            if bridge_mode
            then (
              record p { outbox = outbox },
              ok (record {
                success = true;
                message =
                    text_append (str (length cards))
                      " card permissions queued for the local bridge";
              }),
            )
            else (p, ok (record { success = success; message = message }))
      ]
