-- ===== src/Monitor/Calls.antt =====
-- Any series of calls of the `ConnectionManager`: who a broadcast reaches, and what a revocation signals.
use cerradura_magnetica.Prelude.{
  ℕ, ◌≡◌, refl, ap, ◌∙◌, Bool, true, String, text_eq, List, [], ◌∷◌, none, ◌==◌, Bool-cases, inl,
  inr, select, All, All-update_rows_intro,
}
use cerradura_magnetica.Monitor.{
  Connection, Manager, connect, remove, connections, snapshot, signal_close, signal_all,
  close_session, close_user, close_org, send_each, broadcast,
}
use cerradura_magnetica.Monitor.Registry.{
  IsFiled, entry-select, connections-signal_all, signal_entry-eq-signal_all, add_connection-IsFiled,
  remove_connection-IsFiled, signal_all-IsFiled,
}

pub data Call : Type 0 where
  connects : (org_id user_id : ℕ) (session_id : String) → Call
  disconnects : Connection → Call
  closes_session : String → Call
  closes_user closes_org : ℕ → Call
  broadcasts : (org_id : ℕ) (alive : ℕ → Bool) → Call

unfoldable pub call : Manager → Call → Manager
call m (connects org_id user_id session_id) = (connect m org_id user_id session_id).0
call m (disconnects conn) = remove m conn
call m (closes_session session_id) = (close_session m session_id).0
call m (closes_user user_id) = (close_user m user_id).0
call m (closes_org org_id) = (close_org m org_id).0
call m (broadcasts org_id alive) = (broadcast m org_id alive).0

unfoldable pub calls : Manager → List Call → Manager
calls m [] = m
calls m (c ∷ cs) = calls (call m c) cs

abbrev pub empty_manager : Manager
empty_manager = record { by_org = []; next_key = 0 }

send_each-IsFiled :
    (alive : ℕ → Bool) (conns : List Connection) (m : Manager)
    → IsFiled m.by_org
    → IsFiled (send_each alive conns m).0.by_org
unfolding remove
send_each-IsFiled alive [] m h = h
send_each-IsFiled alive (c ∷ cs) m h = elim (Bool-cases (alive c.key)) [
  | inl up ↦ rw up (send_each-IsFiled alive cs m h)
  | inr down ↦ rw down (
      send_each-IsFiled alive cs (remove m c) (remove_connection-IsFiled c.org_id c.key m.by_org h))
]

pub call-IsFiled : (m : Manager) (c : Call) → IsFiled m.by_org → IsFiled (call m c).by_org
unfolding call connect remove close_session close_user close_org broadcast
call-IsFiled m (connects org_id user_id session_id) h =
    add_connection-IsFiled m.by_org (connect m org_id user_id session_id).1 h
call-IsFiled m (disconnects conn) h = remove_connection-IsFiled conn.org_id conn.key m.by_org h
call-IsFiled m (closes_session session_id) h = signal_all-IsFiled _ m.by_org h
call-IsFiled m (closes_user user_id) h = signal_all-IsFiled _ m.by_org h
call-IsFiled m (closes_org org_id) h =
    rw (signal_entry-eq-signal_all org_id m.by_org h) (signal_all-IsFiled _ m.by_org h)
call-IsFiled m (broadcasts org_id alive) h = send_each-IsFiled alive _ m h

pub calls-IsFiled : (m : Manager) (cs : List Call) → IsFiled m.by_org → IsFiled (calls m cs).by_org
unfolding calls
calls-IsFiled m [] h = h
calls-IsFiled m (c ∷ cs) h = calls-IsFiled (call m c) cs (call-IsFiled m c h)

send_each-told :
    (alive : ℕ → Bool) (conns : List Connection) (m : Manager)
    → (send_each alive conns m).1 ≡ select (λ (c : Connection). alive c.key) conns
send_each-told alive [] m = refl
send_each-told alive (c ∷ cs) m = elim (Bool-cases (alive c.key)) [
  | inl up ↦ rw up (ap (λ t. c ∷ t) (send_each-told alive cs m))
  | inr down ↦ rw down (send_each-told alive cs (remove m c))
]

-- After any series of calls on an empty registry, a broadcast to an organization is taken by exactly the
-- registered connections of that organization whose socket takes text, each once and in order.
pub broadcast_scoped :
    (cs : List Call) (org_id : ℕ) (alive : ℕ → Bool)
    → let m = calls empty_manager cs in
      (broadcast m org_id alive).1
      ≡ select
          (λ (c : Connection). alive c.key)
          (select (λ (c : Connection). c.org_id == org_id) (snapshot m none))
unfolding broadcast snapshot
broadcast_scoped cs org_id alive =
    let m = calls empty_manager cs in
    send_each-told alive _ m
    ∙ ap (λ t. select (λ (c : Connection). alive c.key) t)
        (entry-select org_id m.by_org (calls-IsFiled empty_manager cs tt))

-- Every connection that matches has its flag set.
abbrev pub AllSignalled : (Connection → Bool) → Manager → Type 0
AllSignalled p m =
    All (λ (c : Connection). p c ≡ true → c.close_event ≡ true) (connections m.by_org)

pub signal_all-AllSignalled :
    (p : Connection → Bool) (m : List (ℕ × List Connection))
    → All (λ (c : Connection). p c ≡ true → c.close_event ≡ true) (connections (signal_all p m))
signal_all-AllSignalled p m = rw (connections-signal_all p m) (
    All-update_rows_intro (λ (c : Connection). p c ≡ true → c.close_event ≡ true) p signal_close
      (connections m) (λ c hit k. refl) (λ c miss k. cc))

-- The three closing calls each signal every registered connection that they are for: of the session, of
-- the user, and, where the registry is filed by organization, of the organization.
pub close-AllSignalled :
    (m : Manager) (session_id : String) (user_id org_id : ℕ)
    → IsFiled m.by_org
    → AllSignalled (λ c. text_eq c.session_id session_id) (close_session m session_id).0
      × AllSignalled (λ c. c.user_id == user_id) (close_user m user_id).0
      × AllSignalled (λ c. c.org_id == org_id) (close_org m org_id).0
unfolding close_session close_user close_org
close-AllSignalled m session_id user_id org_id h = (
  signal_all-AllSignalled _ m.by_org,
  signal_all-AllSignalled _ m.by_org,
  rw (signal_entry-eq-signal_all org_id m.by_org h) (signal_all-AllSignalled _ m.by_org),
)
