-- ===== src/Sessions/Tests.antt =====
-- One session: its token is rotated, presented again, and raced for. The hash is the identity here.
use cerradura_magnetica.Prelude.{
  ◌≤◌, ◌≡◌, refl, true, String, List, [], ◌∷◌, some, Result, ok, arith,
}
use cerradura_magnetica.Models.Auth.{User, admin, AuthSession, AuthRefreshToken}
use cerradura_magnetica.Sessions.{
  Db, SessionError, AccessClaims, claims, new_session, first_token, organization_active,
  revoke_family,
}
use cerradura_magnetica.Sessions.Rotation.{rotate_refresh, rotate_session, rotate_token, spend}
use cerradura_magnetica.Sessions.Death.{IsDead}
use cerradura_magnetica.Sessions.SingleUse.{Attempt, wins, single_use}

abbrev plain : String → String
plain s = s

abbrev user : User
user = record { id = 7; organization_id = some 10; role = admin; is_active = true }

abbrev session : AuthSession
session = new_session 1 "s" 7 100 1000

abbrev token : AuthRefreshToken
token = first_token 1 1 "t0" 100 1000

abbrev db : Db
db = record {
  sessions = session ∷ [];
  tokens = token ∷ [];
  users = user ∷ [];
  organizations = record { id = 10; is_active = true } ∷ [];
  next_session = 2;
  next_token = 2;
}

abbrev rotated : Db
rotated = (rotate_refresh plain db db "s" "t0" 7 "t1" 150 151).0

first_rotation :
    rotate_refresh plain db db "s" "t0" 7 "t1" 150 151 ≡ (rotated, ok (claims user "s", "t1"))
unfolding rotate_refresh rotate_session rotate_token spend organization_active
first_rotation = refl

abbrev replayed : Db × Result SessionError (AccessClaims × String)
replayed = rotate_refresh plain rotated rotated "s" "t0" 7 "t2" 200 201

abbrev revoked : Db
revoked = revoke_family db session "logout" 120

revoked-IsDead : IsDead "s" revoked
unfolding revoke_family
revoked-IsDead =
    (record session { revoked_at = some 120; revoked_reason = some "logout" }, refl, refl)

abbrev racers : List Attempt
racers =
    record { session = session; owner = user; refresh = "a"; at_time = 150 }
    ∷ record { session = session; owner = user; refresh = "b"; at_time = 150 }
    ∷ []

single_use_example : wins plain token db racers ≤ 1
single_use_example = single_use plain token db racers (omega arith) (omega arith)
