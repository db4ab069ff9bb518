-- ===== src/Monitor/Tests.antt =====
-- Two workers with sockets of two organizations, and the handshake of an operator.
use cerradura_magnetica.Prelude.{
  ℕ, ◌+◌, ◌≡◌, refl, Bool, true, false, not, String, text_eq, List, [], ◌∷◌, ◌++◌, Option, none,
  some, arith, ltb, ◌==◌, if◌then◌else◌, is_none, select,
}
use cerradura_magnetica.Models.Auth.{operator}
use cerradura_magnetica.Sessions.{Db, get_active_session, organization_active}
use cerradura_magnetica.Guards.{TokenPayload}
use cerradura_magnetica.Monitor.{
  Connection, Manager, connect, remove, snapshot, broadcast, close_user,
}
use cerradura_magnetica.Monitor.Calls.{
  Call, connects, closes_user, broadcasts, call, calls, empty_manager, calls-IsFiled,
  broadcast_scoped, AllSignalled,
}
use cerradura_magnetica.Monitor.Bus.{
  session, user, org, revoke_session, revoke_user, revoke_org, deliver,
}
use cerradura_magnetica.Monitor.Bus.Delivery.{covers, revoked_everywhere}
use cerradura_magnetica.Monitor.Socket.{
  Handshake, open_socket, authenticate, check_claims, identify, origin_allowed, Wake, watch, stale,
}
use cerradura_magnetica.Monitor.Revalidation.{dead_socket_closes}
use cerradura_magnetica.Monitor.Admission.{IsAdmitted, open_socket-IsAdmitted}

abbrev history : List Call
history =
    connects 1 7 "a"
    ∷ connects 2 8 "b"
    ∷ connects 1 9 "c"
    ∷ broadcasts 1 (λ key. not (key == 2))
    ∷ closes_user 8
    ∷ []

abbrev worker : Manager
worker = calls empty_manager history

-- The socket that failed is gone, and the other organization's is signalled.
worker_run :
    snapshot worker none
    ≡ record { key = 0; org_id = 1; user_id = 7; session_id = "a"; close_event = false }
      ∷ record { key = 1; org_id = 2; user_id = 8; session_id = "b"; close_event = true }
      ∷ []
unfolding calls call connect remove snapshot broadcast close_user
worker_run = refl

broadcast_scoped_example :
    (broadcast worker 1 (λ key. true)).1
    ≡ select
        (λ (c : Connection). true)
        (select (λ (c : Connection). c.org_id == 1) (snapshot worker none))
broadcast_scoped_example = broadcast_scoped history 1 (λ key. true)

revoked_everywhere_example :
    let s = revoke_session true true worker [] "a" in
    let u = revoke_user true true worker [] 7 in
    let o = revoke_org true true worker [] 1 in
    (AllSignalled (covers (session "a")) s.0
      × AllSignalled (covers (session "a")) (deliver worker (s.1 ++ user 9 ∷ [])))
    × (AllSignalled (covers (user 7)) u.0
        × AllSignalled (covers (user 7)) (deliver worker (u.1 ++ user 9 ∷ [])))
    × (AllSignalled (covers (org 1)) o.0
        × AllSignalled (covers (org 1)) (deliver worker (o.1 ++ user 9 ∷ [])))
revoked_everywhere_example =
    revoked_everywhere worker worker [] (user 9 ∷ []) "a" 7 1
      (calls-IsFiled empty_manager history tt) (calls-IsFiled empty_manager history tt)

-- A session that dies at 500, with a client that sends every 400 milliseconds: the pass at 1600 ends it.
abbrev alive_until : ℕ → Bool
alive_until t = ltb t 500

abbrev pass : ℕ → Wake
pass t = record { at_time = t; close_set = false; client_gone = false; later = t + 10 }

watch_run : watch alive_until 1000 1000 (pass 400 ∷ pass 800 ∷ pass 1200 ∷ []) ≡ some stale
unfolding watch
watch_run = refl

dead_socket_closes_example :
    is_none (watch alive_until 1000 1000 ((pass 400 ∷ pass 800 ∷ []) ++ pass 1600 ∷ [])) ≡ false
dead_socket_closes_example =
    dead_socket_closes alive_until 1000 500 10 1000 (pass 400 ∷ pass 800 ∷ []) (pass 1600)
      (omega arith)
      (
        record { prompt = omega arith; dead = λ h. ground arith },
        (record { prompt = omega arith; dead = λ h. refl }, tt),
      )
      (record { prompt = omega arith; dead = λ h. refl }) (omega arith)

abbrev db : Db
db = record {
  sessions =
      record {
        id = 1;
        session_id = "s";
        user_id = 7;
        issued_at = 0;
        expires_at = 900;
        last_used_at = none;
        revoked_at = none;
        revoked_reason = none;
      }
      ∷ [];
  tokens = [];
  users = record { id = 7; organization_id = some 1; role = operator; is_active = true } ∷ [];
  organizations = record { id = 1; is_active = true } ∷ [];
  next_session = 2;
  next_token = 1;
}

abbrev decode : String → Option TokenPayload
decode token = if text_eq token "t" then some (record { sid = some "s"; sub = 7 }) else none

-- The operator asks for organization 5, and gets a socket of his own.
abbrev asked : Handshake
asked = record {
  origin = some "https://app";
  token = some "";
  organization_id = some 5;
  cookie = some "t";
}

abbrev opened : Connection
opened = record { key = 0; org_id = 1; user_id = 7; session_id = "s"; close_event = false }

abbrev one_socket : Manager
one_socket = record { by_org = (1, opened ∷ []) ∷ []; next_key = 1 }

admitted :
    open_socket decode ("https://app" ∷ []) db empty_manager asked 100 ≡ (one_socket, some opened)
unfolding open_socket authenticate check_claims identify origin_allowed connect get_active_session
    organization_active
admitted = refl

open_socket-IsAdmitted_example : IsAdmitted decode ("https://app" ∷ []) db asked 100 opened
open_socket-IsAdmitted_example =
    open_socket-IsAdmitted decode ("https://app" ∷ []) db empty_manager one_socket asked 100 opened
      admitted
