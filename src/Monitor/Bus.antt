-- ===== src/Monitor/Bus.antt =====
-- backend/app/services/revocation_bus.py: a revocation closes sockets of its own worker and is published
-- to the others. The registries of the workers stand in a list, the caller by its position. `published`
-- is what Redis holds; whether it is configured and takes a message are arguments, since a failure is
-- logged and passed over. The subscriber's thread is left out: a delivery is the step of `dispatch`.
pub mod Delivery
use cerradura_magnetica.Prelude.{ℕ, Bool, ◌&&◌, String, List, [], ◌∷◌, ◌++◌, if◌then◌else◌}
use cerradura_magnetica.Monitor.{Manager, close_session, close_user, close_org}

-- The message on the channel: its kind and its value.
pub data Message : Type 0 where
  session : String → Message
  user : ℕ → Message
  org : ℕ → Message

unfoldable pub dispatch : Manager → Message → Manager
dispatch manager (session value) = (close_session manager value).0
dispatch manager (user value) = (close_user manager value).0
dispatch manager (org value) = (close_org manager value).0

-- `_publish`
unfoldable pub publish : Bool → Bool → List Message → Message → List Message
publish enabled reachable channel message =
    if enabled && reachable then channel ++ message ∷ [] else channel

unfoldable pub revoke_session :
    Bool → Bool → Manager → List Message → String → Manager × List Message × ℕ
unfolding publish
revoke_session enabled reachable manager channel session_id =
    let (left, closed) = close_session manager session_id in
    (left, publish enabled reachable channel (session session_id), closed)

unfoldable pub revoke_user : Bool → Bool → Manager → List Message → ℕ → Manager × List Message × ℕ
unfolding publish
revoke_user enabled reachable manager channel user_id =
    let (left, closed) = close_user manager user_id in
    (left, publish enabled reachable channel (user user_id), closed)

unfoldable pub revoke_org : Bool → Bool → Manager → List Message → ℕ → Manager × List Message × ℕ
unfolding publish
revoke_org enabled reachable manager channel org_id =
    let (left, closed) = close_org manager org_id in
    (left, publish enabled reachable channel (org org_id), closed)

-- A subscriber takes the channel's messages in order.
unfoldable pub deliver : Manager → List Message → Manager
deliver manager [] = manager
deliver manager (m ∷ ms) = deliver (dispatch manager m) ms
