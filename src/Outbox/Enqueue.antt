-- ===== src/Outbox/Enqueue.antt =====
-- Queueing is idempotent in the organization and the key.
use cerradura_magnetica.Prelude.{
  ℕ, ◌≤◌, ◌≡◌, ◌∙◌, inl, inr, true, String, text_eq_refl, Option, none, some, arith, find_row,
  row_count, find_row-append, Option-cases,
}
use cerradura_magnetica.Models.Gateway.{CommandType, Payload, GatewayCommand}
use cerradura_magnetica.Outbox.{Outbox, has_key, new_command, insert_command, enqueue}

-- The unique constraint: no two rows of an organization share a key.
abbrev pub UniqueKeys : Outbox → Type 0
UniqueKeys db =
    (organization_id : ℕ) (key : String) → row_count (has_key organization_id key) db.commands ≤ 1

module _ (organization_id controller_id : ℕ) (type : CommandType) (key : String)
    (payload : Option Payload) (max_attempts : ℕ) where
  abbrev call : Outbox → Outbox → Outbox × GatewayCommand
  call seen db = enqueue seen db organization_id controller_id type key payload max_attempts

  has_key-new :
      (id : ℕ)
      → has_key organization_id key
          (new_command id organization_id controller_id type key payload max_attempts)
        ≡ true
  has_key-new id = ground (arith, text_eq_refl key)

  -- After an insertion the key is found, and it is the row that was returned.
  insert-found :
      (db : Outbox)
      → let (db', c) =
          insert_command db organization_id controller_id type key payload max_attempts in
        find_row (has_key organization_id key) db'.commands ≡ some c
  unfolding insert_command
  insert-found db = elim (Option-cases (find_row (has_key organization_id key) db.commands)) [
    | inl absent ↦
        rw (absent, insert_command)
          (find_row-append _ db.commands _ absent (has_key-new db.next_id))
    | inr (c, present) ↦ rw (present, insert_command) present
  ]

  enqueue_miss :
      (seen db : Outbox)
      → find_row (has_key organization_id key) seen.commands ≡ none
      → call seen db ≡ insert_command db organization_id controller_id type key payload max_attempts
  unfolding enqueue
  enqueue_miss seen db absent = rw (absent, enqueue)

  enqueue_hit :
      (seen db : Outbox) (c : GatewayCommand)
      → find_row (has_key organization_id key) seen.commands ≡ some c
      → call seen db ≡ (db, c)
  unfolding enqueue
  enqueue_hit seen db c present = rw (present, enqueue)

  insert_hit :
      (db : Outbox) (c : GatewayCommand)
      → find_row (has_key organization_id key) db.commands ≡ some c
      → insert_command db organization_id controller_id type key payload max_attempts ≡ (db, c)
  unfolding insert_command
  insert_hit db c present = rw (present, insert_command)

  -- A second call with the organization and key of a first that inserted or found its row at the
  -- flush returns that row and changes nothing, whether its look-up saw the row or was stale.
  pub enqueue_twice :
      (seen db : Outbox)
      → find_row (has_key organization_id key) seen.commands ≡ none
      → let (db', c) = call seen db in (call db' db' ≡ (db', c)) × (call seen db' ≡ (db', c))
  enqueue_twice seen db absent =
      let found = insert-found db in
      rw (enqueue_miss seen db absent)
        (enqueue_hit _ _ _ found, enqueue_miss seen _ absent ∙ insert_hit _ _ found)
