-- ===== src/Monitor.antt =====
-- backend/app/services/events.py: `ConnectionManager`, the registry of live monitor sockets. A connection
-- carries its identity among the objects; its `close_event`, which `signal_close` sets on the socket's own
-- loop, is a flag that is set at once. The lock makes each method one step. What is sent on a socket is left
-- out: a broadcast gives the connections that took it, and `alive` says which sockets take text.
pub mod Registry
pub mod Calls
pub mod Bus
pub mod Socket
pub mod Revalidation
pub mod Admission
pub mod Tests
use cerradura_magnetica.Prelude.{
  ℕ, ◌+◌, Bool, true, false, not, String, text_eq, List, [], ◌∷◌, ◌++◌, Option, none, some, ◌==◌,
  if◌then◌else◌, length, select, update_rows,
}

pub record Connection : Type 0 where
  pub key : ℕ
  pub org_id : ℕ
  pub user_id : ℕ
  pub session_id : String
  pub close_event : Bool

-- The dictionary `_by_org`, in insertion order.
pub record Manager : Type 0 where
  pub by_org : List (ℕ × List Connection)
  pub next_key : ℕ

-- The entry of an organization, or none of its connections.
abbrev pub entry : List (ℕ × List Connection) → ℕ → List Connection
entry [] org_id = []
entry ((o, conns) ∷ rest) org_id = if o == org_id then conns else entry rest org_id

-- `setdefault(org_id, set()).add(conn)`
abbrev pub add_connection : List (ℕ × List Connection) → ℕ → Connection → List (ℕ × List Connection)
add_connection [] org_id conn = (org_id, conn ∷ []) ∷ []
add_connection ((o, conns) ∷ rest) org_id conn =
    if o == org_id
    then (o, conns ++ conn ∷ []) ∷ rest
    else (o, conns) ∷ add_connection rest org_id conn

unfoldable pub connect : Manager → ℕ → ℕ → String → Manager × Connection
connect manager org_id user_id session_id =
    let conn : Connection = record {
      key = manager.next_key;
      org_id = org_id;
      user_id = user_id;
      session_id = session_id;
      close_event = false;
    } in
    (
      record {
        by_org = add_connection manager.by_org org_id conn;
        next_key = manager.next_key + 1;
      },
      conn,
    )

-- `conns.discard(conn)`, by the identity of the object, and the entry that is left empty is dropped.
abbrev pub discard : ℕ → List Connection → List Connection
discard key conns = select (λ c. not (c.key == key)) conns

abbrev pub keep_entry :
    ℕ → List Connection → List (ℕ × List Connection) → List (ℕ × List Connection)
keep_entry o [] rest = rest
keep_entry o (c ∷ cs) rest = (o, c ∷ cs) ∷ rest

abbrev pub remove_connection : List (ℕ × List Connection) → ℕ → ℕ → List (ℕ × List Connection)
remove_connection [] org_id key = []
remove_connection ((o, conns) ∷ rest) org_id key =
    if o == org_id
    then keep_entry o (discard key conns) rest
    else (o, conns) ∷ remove_connection rest org_id key

-- `_remove`, which `disconnect` calls.
unfoldable pub remove : Manager → Connection → Manager
remove manager conn = record manager {
  by_org = remove_connection manager.by_org conn.org_id conn.key;
}

abbrev pub connections : List (ℕ × List Connection) → List Connection
connections [] = []
connections ((o, conns) ∷ rest) = conns ++ connections rest

unfoldable pub snapshot : Manager → Option ℕ → List Connection
snapshot manager none = connections manager.by_org
snapshot manager (some org_id) = entry manager.by_org org_id

abbrev pub signal_close : Connection → Connection
signal_close c = record c { close_event = true }

-- The flags of the connections that match are set, in place.
abbrev pub signal_all :
    (Connection → Bool) → List (ℕ × List Connection) → List (ℕ × List Connection)
signal_all p [] = []
signal_all p ((o, conns) ∷ rest) = (o, update_rows p signal_close conns) ∷ signal_all p rest

abbrev pub signal_entry : ℕ → List (ℕ × List Connection) → List (ℕ × List Connection)
signal_entry org_id [] = []
signal_entry org_id ((o, conns) ∷ rest) =
    if o == org_id
    then (o, update_rows (λ _. true) signal_close conns) ∷ rest
    else (o, conns) ∷ signal_entry org_id rest

unfoldable pub close_session : Manager → String → Manager × ℕ
unfolding snapshot
close_session manager session_id =
    let matches = λ (c : Connection). text_eq c.session_id session_id in
    (
      record manager { by_org = signal_all matches manager.by_org },
      length (select matches (snapshot manager none)),
    )

unfoldable pub close_user : Manager → ℕ → Manager × ℕ
unfolding snapshot
close_user manager user_id =
    let matches = λ (c : Connection). c.user_id == user_id in
    (
      record manager { by_org = signal_all matches manager.by_org },
      length (select matches (snapshot manager none)),
    )

unfoldable pub close_org : Manager → ℕ → Manager × ℕ
unfolding snapshot
close_org manager org_id = (
  record manager { by_org = signal_entry org_id manager.by_org },
  length (snapshot manager (some org_id)),
)

-- The loop of `broadcast` over the snapshot: a socket that fails is taken off the registry.
abbrev pub send_each : (ℕ → Bool) → List Connection → Manager → Manager × List Connection
send_each alive [] manager = (manager, [])
send_each alive (c ∷ cs) manager =
    if alive c.key
    then (let (left, told) = send_each alive cs manager in (left, c ∷ told))
    else send_each alive cs (remove manager c)

unfoldable pub broadcast : Manager → ℕ → (ℕ → Bool) → Manager × List Connection
unfolding snapshot remove
broadcast manager org_id alive = send_each alive (snapshot manager (some org_id)) manager
