-- ===== src/Users/Tests.antt =====
-- An organization with an administrator and a viewer, beside a super admin. Hashes change nothing.
use cerradura_magnetica.Prelude.{
  ◌≡◌, refl, true, false, String, [], ◌∷◌, none, some, ok, err, arith, ◌==◌,
}
use cerradura_magnetica.Models.Auth.{Organization, User, AuthSession, super_admin, admin, viewer}
use cerradura_magnetica.Login as Login
use cerradura_magnetica.Monitor.Calls.{AllSignalled}
use cerradura_magnetica.Account.{Worker}
use cerradura_magnetica.Users.{
  UserCreate, UserUpdate, super_admin_only, user_not_found, new_account, create_user, update_user,
  delete_user, get_scoped_user, write_update, update_organization,
}
use cerradura_magnetica.Users.Keys.{append-IsKeyed}
use cerradura_magnetica.Users.Scope.{
  Spares, creates, updates, deletes, Reach, here, next, Reach-Spares,
}
use cerradura_magnetica.Users.Suspension.{IsLocked, update_user-IsLocked, suspension-IsLocked}

abbrev same : String → String
same s = s

abbrev boss_account : Login.Account
boss_account = new_account 2 "boss@org" "pw2" admin (some 1)

abbrev boss : User
boss = boss_account.user

abbrev root_account : Login.Account
root_account = new_account 1 "root@all" "pw1" super_admin none

abbrev guest_account : Login.Account
guest_account = new_account 3 "guest@org" "pw3" viewer (some 1)

abbrev session : AuthSession
session = record {
  id = 1;
  session_id = "s";
  user_id = 3;
  issued_at = 100;
  expires_at = 900;
  last_used_at = none;
  revoked_at = none;
  revoked_reason = none;
}

abbrev acme : Organization
acme = record { id = 1; is_active = true }

abbrev worker : Worker
worker = record {
  state = record {
    accounts = root_account ∷ boss_account ∷ guest_account ∷ [];
    db = record {
      sessions = session ∷ [];
      tokens = [];
      users = root_account.user ∷ boss ∷ guest_account.user ∷ [];
      organizations = acme ∷ [];
      next_session = 2;
      next_token = 1;
    };
  };
  audit = [];
  manager = record {
    by_org =
        (1, record { key = 0; org_id = 1; user_id = 3; session_id = "s"; close_event = false } ∷ [])
        ∷ [];
    next_key = 1;
  };
  channel = [];
}

abbrev a_super_admin : UserCreate
a_super_admin = record {
  email = "x@org";
  password = "pw4";
  role = super_admin;
  organization_id = some 1;
}

abbrev a_viewer : UserCreate
a_viewer = record { email = "y@org"; password = "pw5"; role = viewer; organization_id = some 9 }

abbrev promotion : UserUpdate
promotion = record { password = none; role = some super_admin; is_active = none }

abbrev switch_off : UserUpdate
switch_off = record { password = none; role = none; is_active = some false }

-- What the administrator is refused.
refusals :
    ((create_user same same worker a_super_admin 1 boss 4).1 ≡ err super_admin_only)
    × ((update_user same same true true worker 3 promotion 1 boss 200).1 ≡ err super_admin_only)
    × ((delete_user worker 1 1 boss).1 ≡ err user_not_found)
unfolding create_user update_user delete_user get_scoped_user
refusals = (refl, refl, refl)

abbrev hired : Worker
hired = (create_user same same worker a_viewer 1 boss 4).0

abbrev silenced : Worker
silenced = (update_user same same true true hired 3 switch_off 1 boss 200).0

abbrev fired : Worker
fired = (delete_user silenced 3 1 boss).0

reached : Reach same same true true boss 1 worker fired
reached =
    next (next (next here (creates a_viewer 4 refl refl)) (updates 3 switch_off 200 refl))
      (deletes 3 refl)

Reach-Spares_example : Spares same same true true boss 1 worker fired
Reach-Spares_example =
    Reach-Spares same same true true boss 1 refl
      (append-IsKeyed (λ (a : Login.Account). a.user.id) guest_account
        (root_account ∷ boss_account ∷ []) refl
        (append-IsKeyed (λ (a : Login.Account). a.user.id) boss_account (root_account ∷ []) refl
          (append-IsKeyed (λ (a : Login.Account). a.user.id) root_account [] refl
            (λ k. omega arith))))
      reached

update_user-IsLocked_example :
    IsLocked same silenced.state.db 3 × AllSignalled (λ c. c.user_id == 3) silenced.manager
unfolding update_user write_update get_scoped_user create_user
update_user-IsLocked_example =
    update_user-IsLocked same same same true true hired 3 1 200 switch_off boss
      (record guest_account {
        user = record { id = 3; organization_id = some 1; role = viewer; is_active = false };
      })
      refl refl

suspension-IsLocked_example :
    let r = update_organization true true worker 1 (some false) root_account.user 200 in
    (r.1 ≡ ok (record acme { is_active = false }))
    × IsLocked same r.0.state.db 3
    × AllSignalled (λ c. c.org_id == 1) r.0.manager
suspension-IsLocked_example =
    suspension-IsLocked same same same true true worker 1 3 200 root_account.user acme refl refl
      ((refl, tt), tt, tt)
