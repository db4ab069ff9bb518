-- ===== src/Outbox.antt =====
-- backend/app/services/gateway_outbox.py: the command queue of the local bridge. The table lists its
-- rows in the order of `created_at` and `id`, which is that of insertion. A call that reads and
-- then writes takes the table twice: as its SELECT saw it, and as it stands when its conditional
-- UPDATE or its INSERT runs, other workers having acted in between.
pub mod Enqueue
pub mod Claim
pub mod Ack
pub mod Tests
use cerradura_magnetica.Prelude.{
  ℕ, suc, ◌+◌, Bool, true, false, ◌&&◌, ◌||◌, String, text_eq, List, [], ◌∷◌, ◌++◌, Option, none,
  some, Result, ok, err, leb, ltb, ◌==◌, if◌then◌else◌, holds, take, map, select, find_row,
  update_rows, row_count,
}
use cerradura_magnetica.Models.Gateway.{
  CommandType, CommandStatus, pending, leased, succeeded, failed, Payload, GatewayCommand,
}

pub data OutboxError : Type 0 where
  token_required not_leased : OutboxError

pub record Outbox : Type 0 where
  pub commands : List GatewayCommand
  pub next_id : ℕ

abbrev pub is_terminal : CommandStatus → Bool
is_terminal succeeded = true
is_terminal failed = true
is_terminal _ = false

abbrev pub has_key : ℕ → String → GatewayCommand → Bool
has_key organization_id key c =
    c.organization_id == organization_id && text_eq c.idempotency_key key

abbrev pub new_command : ℕ → ℕ → ℕ → CommandType → String → Option Payload → ℕ → GatewayCommand
new_command id organization_id controller_id type key payload max_attempts = record {
  id = id;
  organization_id = organization_id;
  controller_id = controller_id;
  idempotency_key = key;
  type = type;
  payload = payload;
  status = pending;
  lease_token = none;
  leased_at = none;
  leased_until = none;
  attempts = 0;
  max_attempts = max_attempts;
  last_error = none;
  result = none;
  completed_at = none;
}

-- The INSERT under the unique constraint on (organization, key): a row that a concurrent call has
-- inserted is returned in its place. The rollback before that undoes what the caller had not
-- committed; here it has nothing uncommitted.
unfoldable pub insert_command :
    Outbox → ℕ → ℕ → CommandType → String → Option Payload → ℕ → Outbox × GatewayCommand
insert_command db organization_id controller_id type key payload max_attempts =
    elim (find_row (has_key organization_id key) db.commands) [
      | some winner ↦ (db, winner)
      | none ↦
          let command =
            new_command db.next_id organization_id controller_id type key payload max_attempts in
          (record db { commands = db.commands ++ command ∷ []; next_id = suc db.next_id }, command)
    ]

-- `seen` is the table at the first SELECT, `db` at the flush.
unfoldable pub enqueue :
    Outbox → Outbox → ℕ → ℕ → CommandType → String → Option Payload → ℕ → Outbox × GatewayCommand
unfolding insert_command
enqueue seen db organization_id controller_id type key payload max_attempts =
    elim (find_row (has_key organization_id key) seen.commands) [
      | some existing ↦ (db, existing)
      | none ↦ insert_command db organization_id controller_id type key payload max_attempts
    ]

-- PENDING, or LEASED with a lease that has run out; a NULL expiry compares as false.
abbrev pub deliverable : ℕ → GatewayCommand → Bool
deliverable now c = elim c.status [
  | pending ↦ true
  | leased ↦ holds c.leased_until (λ t. ltb t now)
  | _ ↦ false
]

-- `controller_id is None or ...controller_id == controller_id`
abbrev pub for_controller : Option ℕ → GatewayCommand → Bool
for_controller none c = true
for_controller (some controller_id) c = c.controller_id == controller_id

unfoldable pub deliverable_ids : List GatewayCommand → ℕ → Option ℕ → ℕ → ℕ → List ℕ
deliverable_ids commands organization_id controller_id now limit = take limit (
    map (λ c. c.id)
      (select
        (λ c.
          c.organization_id == organization_id
          && deliverable now c
          && for_controller controller_id c)
        commands))

abbrev pub lease : String → ℕ → ℕ → GatewayCommand → GatewayCommand
lease worker_token now lease_seconds c = record c {
  status = leased;
  lease_token = some worker_token;
  leased_at = some now;
  leased_until = some (now + lease_seconds);
  attempts = c.attempts + 1;
}

abbrev pub leasable : ℕ → ℕ → GatewayCommand → Bool
leasable now id c = c.id == id && deliverable now c

-- One conditional UPDATE, and whether it changed a row.
unfoldable pub lease_one : List GatewayCommand → String → ℕ → ℕ → ℕ → List GatewayCommand × Bool
lease_one commands worker_token now lease_seconds id = (
  update_rows (leasable now id) (lease worker_token now lease_seconds) commands,
  row_count (leasable now id) commands == 1,
)

-- The loop over the selected identifiers, and those that this worker leased.
unfoldable pub lease_each :
    List GatewayCommand → String → ℕ → ℕ → List ℕ → List GatewayCommand × List ℕ
unfolding lease_one
lease_each commands worker_token now lease_seconds [] = (commands, [])
lease_each commands worker_token now lease_seconds (id ∷ ids) =
    let (commands', won) = lease_one commands worker_token now lease_seconds id in
    let (final, rest) = lease_each commands' worker_token now lease_seconds ids in
    (final, if won then id ∷ rest else rest)

abbrev pub id_in : List ℕ → ℕ → Bool
id_in [] id = false
id_in (x ∷ xs) id = x == id || id_in xs id

-- `seen` is the table at the SELECT, `db` at the first UPDATE.
unfoldable pub claim :
    Outbox
    → Outbox
    → ℕ
    → String
    → Option ℕ
    → ℕ
    → ℕ
    → ℕ
    → Result OutboxError (Outbox × List GatewayCommand)
unfolding deliverable_ids lease_each
claim seen db organization_id worker_token controller_id lease_seconds limit now =
    if text_eq worker_token ""
    then err token_required
    else let ids = deliverable_ids seen.commands organization_id controller_id now limit in
      let (commands, leased_ids) = lease_each db.commands worker_token now lease_seconds ids in
      ok (record db { commands = commands }, select (λ c. id_in leased_ids c.id) commands)

abbrev pub settle : GatewayCommand → Bool → Option String → Option String → ℕ → GatewayCommand
settle c success result error now =
    if success
    then record c {
      status = succeeded;
      result = result;
      last_error = none;
      completed_at = some now;
    }
    else if leb c.max_attempts c.attempts
    then record c { status = failed; last_error = error; completed_at = some now }
    else record c { status = pending; last_error = error }

abbrev pub release_lease : GatewayCommand → GatewayCommand
release_lease c = record c { lease_token = none; leased_until = none }

-- `command.status == LEASED and command.lease_token == worker_token`
abbrev pub leased_by : String → GatewayCommand → Bool
leased_by worker_token c = elim c.status [
  | leased ↦ holds c.lease_token (λ t. text_eq t worker_token)
  | _ ↦ false
]

unfoldable pub acknowledge :
    GatewayCommand
    → String
    → Bool
    → Option String
    → Option String
    → ℕ
    → Result OutboxError GatewayCommand
acknowledge c worker_token success result error now =
    if is_terminal c.status
    then ok c
    else if leased_by worker_token c
    then ok (release_lease (settle c success result error now))
    else err not_leased
