-- ===== src/Monitor/Socket.antt =====
-- backend/app/api/v1/ws.py: the handshake of the event stream, and the loop that holds it open. `decode_token`
-- is a parameter as in Guards. Times of the loop are in milliseconds (`max(0.1, ...)` is 100), and each pass
-- is what `asyncio.wait` came back with: the clock, whether the close flag is set, whether the client is
-- gone, and the clock again after the check of the session. What the client sends is not read.
use cerradura_magnetica.Prelude.{
  ℕ, ◌+◌, Bool, true, ◌&&◌, ◌||◌, not, String, text_eq, List, [], ◌∷◌, Option, none, some, leb,
  ◌==◌, if◌then◌else◌, holds, is_none,
}
use cerradura_magnetica.Models.Auth.{User, super_admin}
use cerradura_magnetica.Sessions.{
  Db, get_user, get_active_session, session_is_live, organization_active,
}
use cerradura_magnetica.Guards.{TokenPayload, role_eq}
use cerradura_magnetica.Login.{given, in_list}
use cerradura_magnetica.Monitor.{Manager, Connection, connect, remove}

-- The organization to watch: `requested_org or user.organization_id` for a super admin, where 0 is false.
abbrev pub watched_org : User → Option ℕ → Option ℕ
watched_org user requested =
    if role_eq user.role super_admin && holds requested (λ id. not (id == 0))
    then requested
    else user.organization_id

-- From the user that the token names.
unfoldable pub identify : Db → Option User → String → Option ℕ → Option (ℕ × String × ℕ)
unfolding organization_active
identify db none session_id requested = none
identify db (some user) session_id requested =
    if not user.is_active || not (organization_active db user)
    then none
    else (elim (watched_org user requested) [
      | none ↦ none
      | some org_id ↦ some (user.id, session_id, org_id)
    ])

-- From the session that the token names.
unfoldable pub check_claims : Db → ℕ → Option String → Option ℕ → ℕ → Option (ℕ × String × ℕ)
unfolding identify get_active_session
check_claims db subject none requested now = none
check_claims db subject (some session_id) requested now =
    if text_eq session_id "" || is_none (get_active_session db session_id (some subject) now)
    then none
    else identify db (get_user db subject) session_id requested

unfoldable pub still_live : Db → String → ℕ → ℕ → Bool
unfolding session_is_live
still_live db session_id user_id now = session_is_live db session_id (some user_id) now

unfoldable pub origin_allowed : List String → Option String → Bool
origin_allowed cors_origin_list none = true
origin_allowed cors_origin_list (some origin) = in_list origin cors_origin_list

-- What the handshake is given: the header, the query and the cookie.
pub record Handshake : Type 0 where
  pub origin : Option String
  pub token : Option String
  pub organization_id : Option ℕ
  pub cookie : Option String

-- `token or cookie`, and none where both are missing or empty.
abbrev pub presented : Handshake → Option String
presented h = if given h.token then h.token else if given h.cookie then h.cookie else none

module _ (decode_token : String → Option TokenPayload) where
  unfoldable pub authenticate : Db → String → Option ℕ → ℕ → Option (ℕ × String × ℕ)
  unfolding check_claims
  authenticate db token requested now = elim (decode_token token) [
    | none ↦ none
    | some payload ↦ check_claims db payload.sub payload.sid requested now
  ]

  -- `events_ws` up to the loop: a registered connection, or a socket that is closed at once.
  unfoldable pub open_socket :
      List String → Db → Manager → Handshake → ℕ → Manager × Option Connection
  unfolding authenticate
  open_socket cors_origin_list db manager h now =
      if not (origin_allowed cors_origin_list h.origin)
      then (manager, none)
      else elim (presented h) [
        | none ↦ (manager, none)
        | some token ↦ elim (authenticate db token h.organization_id now) [
          | none ↦ (manager, none)
          | some (user_id, session_id, org_id) ↦
              let (left, conn) = connect manager org_id user_id session_id in (left, some conn)
        ]
      ]

-- One pass of the loop.
pub record Wake : Type 0 where
  pub at_time : ℕ
  pub close_set : Bool
  pub client_gone : Bool
  pub later : ℕ

pub data Ending : Type 0 where
  revoked stale disconnected : Ending

unfoldable pub interval_of : ℕ → ℕ
interval_of ws_revalidate = if leb 100 ws_revalidate then ws_revalidate else 100

-- The loop over the passes, `live` the answer of `_still_live` at a time: how it ends, or none where it
-- goes on after them.
unfoldable pub watch : (ℕ → Bool) → ℕ → ℕ → List Wake → Option Ending
watch live interval next_revalidate [] = none
watch live interval next_revalidate (w ∷ ws) =
    let same = watch live interval next_revalidate ws in
    let renewed = watch live interval (w.later + interval) ws in
    if w.close_set
    then some revoked
    else if leb next_revalidate w.at_time
    then (if not (live w.at_time)
        then some stale
        else if w.client_gone
        then some disconnected
        else renewed)
    else if w.client_gone
    then some disconnected
    else same

-- The `finally`.
unfoldable pub close_socket : Manager → Connection → Manager
close_socket manager conn = remove manager conn
