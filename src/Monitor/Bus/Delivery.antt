-- ===== src/Monitor/Bus/Delivery.antt =====
-- A revocation reaches the sockets of every worker that has taken it from the channel.
use mathlib.Core.List.{append_assoc}
use cerradura_magnetica.Prelude.{
  ℕ, ◌≡◌, refl, Bool, true, String, text_eq, List, [], ◌∷◌, ◌++◌, ◌==◌, All-update_rows,
}
use cerradura_magnetica.Monitor.{
  Connection, Manager, connections, signal_all, signal_close, close_session, close_user, close_org,
}
use cerradura_magnetica.Monitor.Registry.{
  IsFiled, connections-signal_all, signal_entry-eq-signal_all, signal_all-IsFiled,
}
use cerradura_magnetica.Monitor.Calls.{AllSignalled, signal_all-AllSignalled}
use cerradura_magnetica.Monitor.Bus.{
  Message, session, user, org, dispatch, publish, revoke_session, revoke_user, revoke_org, deliver,
}

-- The connections that a message is for.
abbrev pub covers : Message → Connection → Bool
covers (session value) c = text_eq c.session_id value
covers (user value) c = c.user_id == value
covers (org value) c = c.org_id == value

signalled : Manager → Message → Manager
signalled m message = record m { by_org = signal_all (covers message) m.by_org }

dispatch-eq-signalled :
    (m : Manager) (message : Message) → IsFiled m.by_org → dispatch m message ≡ signalled m message
unfolding dispatch signalled close_session close_user close_org
dispatch-eq-signalled m (session value) h = refl
dispatch-eq-signalled m (user value) h = refl
dispatch-eq-signalled m (org value) h = rw (signal_entry-eq-signal_all value m.by_org h) refl

covers-signal_close :
    (message : Message) (c : Connection) → covers message (signal_close c) ≡ covers message c
covers-signal_close (session value) c = refl
covers-signal_close (user value) c = refl
covers-signal_close (org value) c = refl

dispatch-IsFiled :
    (m : Manager) (message : Message) → IsFiled m.by_org → IsFiled (dispatch m message).by_org
unfolding signalled
dispatch-IsFiled m message h =
    rw (dispatch-eq-signalled m message h) (signal_all-IsFiled (covers message) m.by_org h)

dispatch-AllSignalled :
    (m : Manager) (message : Message)
    → IsFiled m.by_org
    → AllSignalled (covers message) (dispatch m message)
unfolding signalled
dispatch-AllSignalled m message h =
    rw (dispatch-eq-signalled m message h) (signal_all-AllSignalled (covers message) m.by_org)

-- A later message leaves the flags that are set.
dispatch_keeps :
    (m : Manager) (message later : Message)
    → IsFiled m.by_org
    → AllSignalled (covers message) m
    → AllSignalled (covers message) (dispatch m later)
unfolding signalled
dispatch_keeps m message later h k =
    rw (dispatch-eq-signalled m later h, connections-signal_all (covers later) m.by_org)
      (All-update_rows (λ (c : Connection). covers message c ≡ true → c.close_event ≡ true)
        (λ (c : Connection). covers message c ≡ true → c.close_event ≡ true) (covers later)
        signal_close (connections m.by_org) (λ c hit a b e. refl) k k)

deliver_keeps :
    (m : Manager) (message : Message) (later : List Message)
    → IsFiled m.by_org
    → AllSignalled (covers message) m
    → AllSignalled (covers message) (deliver m later)
unfolding deliver
deliver_keeps m message [] h k = k
deliver_keeps m message (x ∷ xs) h k =
    deliver_keeps (dispatch m x) message xs (dispatch-IsFiled m x h)
      (dispatch_keeps m message x h k)

deliver-AllSignalled :
    (m : Manager) (earlier : List Message) (message : Message) (later : List Message)
    → IsFiled m.by_org
    → AllSignalled (covers message) (deliver m (earlier ++ message ∷ later))
unfolding deliver
deliver-AllSignalled m [] message later h =
    deliver_keeps (dispatch m message) message later (dispatch-IsFiled m message h)
      (dispatch-AllSignalled m message h)
deliver-AllSignalled m (x ∷ xs) message later h =
    deliver-AllSignalled (dispatch m x) xs message later (dispatch-IsFiled m x h)

published :
    (m : Manager) (channel : List Message) (message : Message) (later : List Message)
    → IsFiled m.by_org
    → AllSignalled (covers message) (deliver m ((channel ++ message ∷ []) ++ later))
published m channel message later h =
    rw (append_assoc channel (message ∷ []) later) (deliver-AllSignalled m channel message later h)

-- Where Redis is configured and takes the message, revoking a session, a user or an organization sets the
-- close flag of every socket concerned: at once in the worker that revokes, and in any other worker
-- once it has taken the channel's messages up to that one, whatever messages follow. Both workers file
-- their sockets by organization.
pub revoked_everywhere :
    (own other : Manager) (channel later : List Message) (session_id : String) (user_id org_id : ℕ)
    → IsFiled own.by_org
    → IsFiled other.by_org
    → let s = revoke_session true true own channel session_id in
      let u = revoke_user true true own channel user_id in
      let o = revoke_org true true own channel org_id in
      (AllSignalled (covers (session session_id)) s.0
        × AllSignalled (covers (session session_id)) (deliver other (s.1 ++ later)))
      × (AllSignalled (covers (user user_id)) u.0
          × AllSignalled (covers (user user_id)) (deliver other (u.1 ++ later)))
      × (AllSignalled (covers (org org_id)) o.0
          × AllSignalled (covers (org org_id)) (deliver other (o.1 ++ later)))
unfolding revoke_session revoke_user revoke_org publish dispatch
revoked_everywhere own other channel later session_id user_id org_id h k = (
  (
    dispatch-AllSignalled own (session session_id) h,
    published other channel (session session_id) later k,
  ),
  (dispatch-AllSignalled own (user user_id) h, published other channel (user user_id) later k),
  (dispatch-AllSignalled own (org org_id) h, published other channel (org org_id) later k),
)
