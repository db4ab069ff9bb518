-- ===== src/Monitor/Admission.antt =====
-- backend/app/api/v1/ws.py admits to the event stream those that backend/app/core/deps.py lets call the API.
use cerradura_magnetica.Prelude.{
  ℕ, ◌≡◌, ◌⊎◌, inl, inr, refl, true, false, ◌||◌, String, text_eq, List, Option, none, some, ok,
  arith, if◌then◌else◌, Bool-cases, Option-cases, is_none,
}
use cerradura_magnetica.Models.Auth.{User, super_admin}
use cerradura_magnetica.Sessions.{Db, get_user, get_active_session, organization_active}
use cerradura_magnetica.Guards.{TokenPayload, role_eq, check_user, check_session, get_current_user}
use cerradura_magnetica.Login.{given}
use cerradura_magnetica.Monitor.{Manager, Connection, connect}
use cerradura_magnetica.Monitor.Socket.{
  watched_org, identify, check_claims, origin_allowed, Handshake, presented, authenticate,
  open_socket,
}

-- The user behind an identity that `identify` has granted.
record Grants (db : Db) (user : User) (session_id : String) (i : ℕ × String × ℕ) : Type 0 where
  accepted : check_user db (some user) ≡ ok user
  named : i.0 ≡ user.id
  session : i.1 ≡ session_id
  organization : (role_eq user.role super_admin ≡ true) ⊎ (user.organization_id ≡ some i.2)

watched_org-cases :
    (user : User) (requested : Option ℕ) {o : ℕ}
    → watched_org user requested ≡ some o
    → (role_eq user.role super_admin ≡ true) ⊎ (user.organization_id ≡ some o)
watched_org-cases user requested h = elim (Bool-cases (role_eq user.role super_admin)) [
  | inl top ↦ inl top
  | inr plain ↦ inr (rw plain at h)
]

identify-Grants :
    (db : Db) (user : User) (session_id : String) (requested : Option ℕ) {i : ℕ × String × ℕ}
    → identify db (some user) session_id requested ≡ some i
    → Grants db user session_id i
unfolding identify check_user
identify-Grants db user session_id requested {i} h = elim (Bool-cases user.is_active) [
  | inr off ↦ let h1 = rw (off, identify) at h in cc
  | inl on ↦ elim (Bool-cases (organization_active db user)) [
    | inr shut ↦ let h1 = rw (on, shut, identify) at h in cc
    | inl open' ↦ elim (Option-cases (watched_org user requested)) [
      | inl nowhere ↦ let h1 = rw (on, open', nowhere, identify) at h in cc
      | inr (o, where') ↦
          let granted : some (user.id, session_id, o) ≡ some i =
            rw (on, open', where', identify) at h in
          let same : (user.id, session_id, o) ≡ i = cc in
          rw (← same) (record {
            accepted = rw (on, open') refl;
            named = refl;
            session = refl;
            organization = watched_org-cases user requested where';
          })
    ]
  ]
]

check_claims-Grants :
    (db : Db) (payload : TokenPayload) (requested : Option ℕ) (now : ℕ) {i : ℕ × String × ℕ}
    → check_claims db payload.sub payload.sid requested now ≡ some i
    → (user : User) × (check_session db payload now ≡ ok user)
      × ((sid : String) × (payload.sid ≡ some sid) × Grants db user sid i)
unfolding check_claims check_session
check_claims-Grants db payload requested now {i} h = elim (Option-cases payload.sid) [
  | inl unbound ↦ let h1 : none ≡ some i = rw (unbound, check_claims) at h in cc
  | inr (sid, bound) ↦
      let barred = text_eq sid "" || is_none (get_active_session db sid (some payload.sub) now) in
      let tested : (if barred then none else identify db (get_user db payload.sub) sid requested)
          ≡ some i =
        rw (bound, check_claims) at h in
      elim (Bool-cases barred) [
        | inl stopped ↦ let h1 : none ≡ some i = rw stopped at tested in cc
        | inr through ↦
            let h1 : identify db (get_user db payload.sub) sid requested ≡ some i =
              rw through at tested in
            elim (Option-cases (get_user db payload.sub)) [
              | inl gone ↦ let h2 : none ≡ some i = rw (gone, identify) at h1 in cc
              | inr (user, found) ↦
                  let h2 : identify db (some user) sid requested ≡ some i = rw found at h1 in
                  let g = identify-Grants db user sid requested h2 in
                  (user, rw (bound, through, found) g.accepted, (sid, bound, g))
            ]
      ]
]

presented-filled :
    (h : Handshake) {token : String} → presented h ≡ some token → text_eq token "" ≡ false
presented-filled h {token} e = elim (Bool-cases (given h.token)) [
  | inl first ↦
      let e1 : h.token ≡ some token = rw first at e in
      let g : given (some token) ≡ true = rw e1 at first in ground (arith, g)
  | inr no_token ↦ elim (Bool-cases (given h.cookie)) [
    | inl second ↦
        let e1 : h.cookie ≡ some token = rw (no_token, second) at e in
        let g : given (some token) ≡ true = rw e1 at second in ground (arith, g)
    | inr neither ↦ let e1 : none ≡ some token = rw (no_token, neither) at e in cc
  ]
]

module _ (decode_token : String → Option TokenPayload) where
  -- What holds of a socket that the handshake has registered.
  pub record IsAdmitted (cors : List String) (db : Db) (h : Handshake) (now : ℕ) (conn : Connection)
      : Type 0 where
    pub from_app : origin_allowed cors h.origin ≡ true
    pub token : String
    pub carried : presented h ≡ some token
    pub user : User
    pub signed_in : get_current_user decode_token db (some token) none now ≡ ok user
    pub owner : conn.user_id ≡ user.id
    pub organization :
        (role_eq user.role super_admin ≡ true) ⊎ (user.organization_id ≡ some conn.org_id)

  signed_in_by_claims :
      (db : Db) (token : String) (payload : TokenPayload) (now : ℕ) (user : User)
      → text_eq token "" ≡ false
      → decode_token token ≡ some payload
      → check_session db payload now ≡ ok user
      → get_current_user decode_token db (some token) none now ≡ ok user
  unfolding get_current_user
  signed_in_by_claims db token payload now user filled decoded checked =
      rw (filled, decoded) checked

  -- A handshake that ends with a registered socket came from an allowed origin, or without one, with a
  -- token for which `get_current_user` answers a user at that moment. The socket stands under that user,
  -- and under an organization that is his own unless he is a super admin.
  pub open_socket-IsAdmitted :
      (cors : List String) (db : Db) (manager left : Manager) (h : Handshake) (now : ℕ)
      (conn : Connection)
      → open_socket decode_token cors db manager h now ≡ (left, some conn)
      → IsAdmitted cors db h now conn
  unfolding open_socket authenticate connect
  open_socket-IsAdmitted cors db manager left h now conn e =
      elim (Bool-cases (origin_allowed cors h.origin)) [
        | inr foreign ↦ let e1 = rw (foreign, open_socket) at e in cc
        | inl allowed ↦ elim (Option-cases (presented h)) [
          | inl bare ↦ let e1 = rw (allowed, bare, open_socket) at e in cc
          | inr (token, carried) ↦ elim (Option-cases (decode_token token)) [
            | inl bad ↦ let e1 = rw (allowed, carried, bad, open_socket, authenticate) at e in cc
            | inr (payload, decoded) ↦
                elim (Option-cases
                  (check_claims db payload.sub payload.sid h.organization_id now)) [
                    | inl denied ↦
                        let e1 =
                          rw (allowed, carried, decoded, denied, open_socket, authenticate) at e in
                        cc
                    | inr (i, granted) ↦
                        let made : Connection = (connect manager i.2 i.0 i.1).1 in
                        let e1 : ◌≡◌ {A = Manager × Option Connection}
                            ((connect manager i.2 i.0 i.1).0, some made) (left, some conn) =
                          rw (allowed, carried, decoded, granted, open_socket, authenticate) at e in
                        let same : made ≡ conn = cc in
                        let (user, checked, (sid, bound, g)) =
                          check_claims-Grants db payload h.organization_id now granted in
                        rw (← same) (record {
                          from_app = allowed;
                          token = token;
                          carried = carried;
                          user = user;
                          signed_in =
                              signed_in_by_claims db token payload now user
                                (presented-filled h carried) decoded checked;
                          owner = g.named;
                          organization = g.organization;
                        })
                  ]
          ]
        ]
      ]
