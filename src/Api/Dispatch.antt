-- ===== src/Api/Dispatch.antt =====
-- backend/app/services/command_dispatch.py: commands of the endpoints, queued for the bridge. `uuid` is
-- what `uuid.uuid4().hex` gives.
use Prim.Native.String.{◌++◌ as text_append}
use mathlib.Core.Path.{subst}
use cerradura_magnetica.Prelude.{
  ℕ, zero, suc, ◌≡◌, refl, sym, ap, Bool, true, false, ◌&&◌, String, text_eq, List, [], ◌∷◌, ◌++◌,
  map, Option, none, some, arith, ◌==◌, if◌then◌else◌, holds, select, find_row, exists_row,
  exists_row-append_left, exists_row-append_last, All, get_or,
}
use cerradura_magnetica.Models.Gateway.{
  Controller, CommandType, ping, open_door, sync_time, sync_permissions, revoke_card, CommandStatus,
  pending, Payload, GatewayCommand,
}
use cerradura_magnetica.Access.{same_codes, same_codes_refl}
use cerradura_magnetica.Outbox.{Outbox, has_key, new_command, insert_command, enqueue}

abbrev pub type_value : CommandType → String
type_value ping = "ping"
type_value open_door = "open_door"
type_value sync_time = "sync_time"
type_value sync_permissions = "sync_permissions"
type_value revoke_card = "revoke_card"

-- `str` of a number: its decimal digits, the last first, counted up.
abbrev pub count_up : List ℕ → List ℕ
count_up [] = 1 ∷ []
count_up (d ∷ ds) = let carried = count_up ds in if d == 9 then 0 ∷ carried else suc d ∷ ds

abbrev pub decimal : ℕ → List ℕ
decimal zero = 0 ∷ []
decimal (suc n) = count_up (decimal n)

abbrev pub digit_text : ℕ → String
digit_text d = get_or ("0" ∷ "1" ∷ "2" ∷ "3" ∷ "4" ∷ "5" ∷ "6" ∷ "7" ∷ "8" ∷ "9" ∷ []) d "9"

abbrev pub written : List ℕ → String → String
written [] after = after
written (d ∷ ds) after = written ds (text_append (digit_text d) after)

abbrev pub str : ℕ → String
str n = written (decimal n) ""

-- f"{type.value}:{controller_id}:{suffix}"
unfoldable pub command_key : CommandType → ℕ → String → String
command_key type controller_id suffix =
    text_append (type_value type)
      (text_append ":" (text_append (str controller_id) (text_append ":" suffix)))

abbrev pub key_suffix : Option String → String → String
key_suffix none uuid = uuid
key_suffix (some key) uuid = if text_eq key "" then uuid else key

abbrev pub default_attempts : ℕ
default_attempts = 5

unfoldable pub enqueue_command :
    Outbox
    → Outbox
    → ℕ
    → ℕ
    → CommandType
    → Option Payload
    → Option String
    → String
    → Outbox × GatewayCommand
enqueue_command seen db organization_id controller_id type payload idempotency_key uuid =
    enqueue seen db organization_id controller_id type
      (command_key type controller_id (key_suffix idempotency_key uuid)) payload default_attempts

abbrev pub card_payload : List ℕ → Payload
card_payload card_number = record {
  door = none;
  door_id = none;
  open_request_id = none;
  requested_by_id = none;
  approved_by_id = none;
  card_number = some card_number;
  cards = none;
}

-- The list comprehension; `uuids` gives the draw for each controller.
unfoldable pub revoke_each :
    Outbox → ℕ → List ℕ → (ℕ → String) → List ℕ → Outbox × List GatewayCommand
unfolding enqueue_command
revoke_each db organization_id card_number uuids [] = (db, [])
revoke_each db organization_id card_number uuids (cid ∷ ids) =
    let (db', c) =
      enqueue_command db db organization_id cid revoke_card (some (card_payload card_number)) none
        (uuids cid) in
    let (final, rest) = revoke_each db' organization_id card_number uuids ids in (final, c ∷ rest)

abbrev pub controller_ids : List Controller → ℕ → List ℕ
controller_ids controllers organization_id =
    map (λ (k : Controller). k.id)
      (select (λ (k : Controller). k.organization_id == organization_id) controllers)

unfoldable pub revoke_card_from_boards :
    Bool → List Controller → Outbox → ℕ → List ℕ → (ℕ → String) → Outbox × List GatewayCommand
unfolding revoke_each
revoke_card_from_boards bridge_mode controllers db organization_id card_number uuids =
    if bridge_mode
    then revoke_each db organization_id card_number uuids
        (controller_ids controllers organization_id)
    else (db, [])

-- The keys that are drawn for the controllers are unused and differ from each other.
abbrev pub AreFresh : Outbox → ℕ → (ℕ → String) → List ℕ → Type 0
AreFresh db org uuids [] = Unit
AreFresh db org uuids (cid ∷ ids) =
    (find_row (has_key org (command_key revoke_card cid (uuids cid))) db.commands ≡ none)
    × All
        (λ later.
          text_eq (command_key revoke_card cid (uuids cid))
            (command_key revoke_card later (uuids later))
          ≡ false)
        ids
    × AreFresh db org uuids ids

abbrev pub is_revoke : CommandType → Bool
is_revoke revoke_card = true
is_revoke _ = false

abbrev pub is_queued : CommandStatus → Bool
is_queued pending = true
is_queued _ = false

-- A command that waits to take the card off the controller.
abbrev pub revokes : ℕ → List ℕ → ℕ → GatewayCommand → Bool
revokes org card_number cid c =
    c.organization_id == org
    && c.controller_id == cid
    && is_revoke c.type
    && is_queued c.status
    && holds c.payload (λ p. holds p.card_number (λ number. same_codes number card_number))

-- Under a key that is not taken the command is inserted.
pub enqueue_command-added :
    (db : Outbox) (org cid : ℕ) (type : CommandType) (payload : Option Payload)
    (client_key : Option String) (uuid : String)
    → find_row (has_key org (command_key type cid (key_suffix client_key uuid))) db.commands ≡ none
    → let c =
        new_command db.next_id org cid type
          (command_key type cid (key_suffix client_key uuid))
          payload
          default_attempts in
      enqueue_command db db org cid type payload client_key uuid
      ≡ (record db { commands = db.commands ++ c ∷ []; next_id = suc db.next_id }, c)
unfolding enqueue_command enqueue insert_command
enqueue_command-added db org cid type payload client_key uuid free =
    rw (free, enqueue) (rw (free, insert_command) refl)

module _ (org : ℕ) (card_number : List ℕ) (uuids : ℕ → String) where
  abbrev key : ℕ → String
  key cid = command_key revoke_card cid (uuids cid)

  abbrev queued : ℕ → ℕ → GatewayCommand
  queued id cid =
      new_command id org cid revoke_card (key cid) (some (card_payload card_number))
        default_attempts

  abbrev added : Outbox → ℕ → Outbox
  added db cid = record db {
    commands = db.commands ++ queued db.next_id cid ∷ [];
    next_id = suc db.next_id;
  }

  revoke_command-added :
      (db : Outbox) (cid : ℕ)
      → find_row (has_key org (key cid)) db.commands ≡ none
      → enqueue_command db db org cid revoke_card (some (card_payload card_number)) none (uuids cid)
        ≡ (added db cid, queued db.next_id cid)
  revoke_command-added db cid free =
      enqueue_command-added db org cid revoke_card (some (card_payload card_number)) none
        (uuids cid) free

  find_row-added :
      (k : String) (cs : List GatewayCommand) (c : GatewayCommand)
      → find_row (has_key org k) cs ≡ none
      → text_eq c.idempotency_key k ≡ false
      → find_row (has_key org k) (cs ++ c ∷ []) ≡ none
  find_row-added k [] c absent other = ground (arith, other)
  find_row-added k (x ∷ cs) c absent other = ground (arith, find_row-added k cs c, other)

  AreFresh-added :
      (db : Outbox) (cid : ℕ) (ids : List ℕ)
      → All (λ later. text_eq (key cid) (key later) ≡ false) ids
      → AreFresh db org uuids ids
      → AreFresh (added db cid) org uuids ids
  AreFresh-added db cid [] others free = tt
  AreFresh-added db cid (x ∷ ids) others (free, distinct, rest) = (
    find_row-added (key x) db.commands (queued db.next_id cid) free others.0,
    distinct,
    AreFresh-added db cid ids others.1 rest,
  )

  revokes-queued : (id cid : ℕ) → revokes org card_number cid (queued id cid) ≡ true
  revokes-queued id cid = ground (arith, same_codes_refl card_number)

  -- The first controller's command is inserted, and the rest follow from there.
  revoke_each-cons :
      (db : Outbox) (cid : ℕ) (ids : List ℕ)
      → find_row (has_key org (key cid)) db.commands ≡ none
      → (revoke_each db org card_number uuids (cid ∷ ids)).0
        ≡ (revoke_each (added db cid) org card_number uuids ids).0
  unfolding revoke_each
  revoke_each-cons db cid ids free =
      ap (λ x. (revoke_each x.0 org card_number uuids ids).0) (revoke_command-added db cid free)

  -- A command in the queue stays there while others are queued.
  revoke_each-keeps :
      (r : GatewayCommand → Bool) (ids : List ℕ) (db : Outbox)
      → AreFresh db org uuids ids
      → exists_row r db.commands ≡ true
      → exists_row r (revoke_each db org card_number uuids ids).0.commands ≡ true
  unfolding revoke_each
  revoke_each-keeps r [] db free present = present
  revoke_each-keeps r (cid ∷ ids) db (free, others, rest) present =
      subst (λ (x : Outbox). exists_row r x.commands ≡ true)
        (sym (revoke_each-cons db cid ids free))
        (revoke_each-keeps r ids (added db cid) (AreFresh-added db cid ids others rest)
          (exists_row-append_left r db.commands _ present))

  -- Every controller of the list has a command that waits to revoke the card.
  abbrev pub Reaches : List ℕ → Outbox → Type 0
  Reaches ids db = All (λ cid. exists_row (revokes org card_number cid) db.commands ≡ true) ids

  pub revoke_each-Reaches :
      (ids : List ℕ) (db : Outbox)
      → AreFresh db org uuids ids
      → Reaches ids (revoke_each db org card_number uuids ids).0
  unfolding revoke_each
  revoke_each-Reaches [] db free = tt
  revoke_each-Reaches (cid ∷ ids) db (free, others, rest) =
      let later = AreFresh-added db cid ids others rest in
      subst (Reaches (cid ∷ ids)) (sym (revoke_each-cons db cid ids free)) (
        revoke_each-keeps (revokes org card_number cid) ids (added db cid) later (
            exists_row-append_last (revokes org card_number cid) db.commands _
              (revokes-queued db.next_id cid)),
        revoke_each-Reaches ids (added db cid) later,
      )
