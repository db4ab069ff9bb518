-- ===== src/Users/Scope.antt =====
-- backend/app/api/v1/users.py: how far the administrator of an organization reaches.
use cerradura_magnetica.Prelude.{
  or-false, ℕ, ◌≡◌, refl, sym, subst, ◌∙◌, Bool, true, false, ◌||◌, not, String, text_eq, List, [],
  ◌∷◌, ◌++◌, Option, none, some, ok, err, ◌==◌, ==_iff, holds, is_none, Bool-cases, Option-cases,
  Result-cases, inl, inr, select, find_row, find_row-holds, select-append,
}
use mathlib.Core.List.{append-nil}
use cerradura_magnetica.Models.Auth.{User, UserRole, super_admin}
use cerradura_magnetica.Guards.{role_eq}
use cerradura_magnetica.Login as Login
use cerradura_magnetica.Login.{store}
use cerradura_magnetica.Account.{Worker}
use cerradura_magnetica.Users.{
  UserCreate, UserUpdate, user_not_found, is_super, belongs, get_account, get_scoped_user,
  target_org, org_exists, new_account, create_user, or_kept, with_fields, invalidates, invalidate,
  write_update, update_user, delete_user,
}
use cerradura_magnetica.Users.Keys.{
  IsKeyed, select-replace, select-delete, update_rows-IsKeyed, select-IsKeyed, append-IsKeyed,
}

abbrev id_of : Login.Account → ℕ
id_of a = a.user.id

-- The accounts that an administrator of the organization must not touch: those of others, and super admins.
abbrev pub beyond : ℕ → Login.Account → Bool
beyond org_id a = not (belongs a.user org_id) || is_super a.user

get_scoped_user-eq-ok :
    (w : Worker) (user_id : ℕ) (actor : User) (org_id : ℕ) {target : Login.Account}
    → is_super actor ≡ false
    → get_scoped_user w user_id actor org_id ≡ ok target
    → (get_account w.state.accounts target.user.id ≡ some target) × (beyond org_id target ≡ false)
unfolding get_scoped_user
get_scoped_user-eq-ok w user_id actor org_id {target} plain h =
    elim (Option-cases (get_account w.state.accounts user_id)) [
      | inl absent ↦
          let h1 : err user_not_found ≡ ok target = rw (absent, get_scoped_user) at h in cc
      | inr (a, found) ↦ elim (Bool-cases (beyond org_id a)) [
        | inl far ↦
            let h1 : err user_not_found ≡ ok target =
              rw (found, get_scoped_user, plain, far) at h in
            cc
        | inr near ↦
            let h1 : ok a ≡ ok target = rw (found, get_scoped_user, plain, near) at h in
            let same : a ≡ target = cc in
            let own : a.user.id ≡ user_id = (==_iff a.user.id user_id).0 (
              find_row-holds (λ (x : Login.Account). x.user.id == user_id) w.state.accounts
                found) in
            rw (← same) (subst (λ k. get_account w.state.accounts k ≡ some a) (sym own) found, near)
      ]
    ]

or_kept-modest :
    (asked : Option UserRole) (old : UserRole)
    → role_eq old super_admin ≡ false
    → holds asked (λ r. role_eq r super_admin) ≡ false
    → role_eq (or_kept asked old) super_admin ≡ false
or_kept-modest none old h k = h
or_kept-modest (some r) old h k = k

module _ (lower hash_password : String → String) (enabled reachable : Bool) (actor : User)
    (org_id : ℕ) where
  -- A request of the administrator to the endpoints. A new user's identifier is one that is not taken.
  pub data Step (w v : Worker) : Type 0 where
    creates :
        (body : UserCreate) (id : ℕ)
        → get_account w.state.accounts id ≡ none
        → v ≡ (create_user lower hash_password w body org_id actor id).0
        → Step w v
    updates :
        (user_id : ℕ) (body : UserUpdate) (now : ℕ)
        → v ≡ (update_user lower hash_password enabled reachable w user_id body org_id actor now).0
        → Step w v
    deletes : (user_id : ℕ) → v ≡ (delete_user w user_id org_id actor).0 → Step w v

  pub data Reach (w : Worker) : Worker → Type 0 where
    here : Reach w w
    next : {u v : Worker} → Reach w u → Step u v → Reach w v

  -- The table keeps its keys and the rows beyond the administrator.
  abbrev pub SparesRows : List Login.Account → List Login.Account → Type 0
  SparesRows before after =
      IsKeyed id_of after × (select (beyond org_id) after ≡ select (beyond org_id) before)

  abbrev pub Spares : Worker → Worker → Type 0
  Spares w v = SparesRows w.state.accounts v.state.accounts

  module _ (w : Worker) (plain : is_super actor ≡ false)
      (keyed : IsKeyed id_of w.state.accounts) where
    create-Spares :
        (body : UserCreate) (id : ℕ)
        → get_account w.state.accounts id ≡ none
        → Spares w (create_user lower hash_password w body org_id actor id).0
    unfolding create_user
    create-Spares body id fresh =
        elim (Bool-cases (
          not (
            is_none (
              find_row (λ (a : Login.Account). text_eq a.email (lower body.email))
                w.state.accounts)))) [
                  | inl taken ↦ rw (create_user, taken) (keyed, refl)
                  | inr free ↦ elim (Bool-cases (role_eq body.role super_admin)) [
                    | inl top ↦ rw (create_user, free, top, plain) (keyed, refl)
                    | inr modest ↦
                        let b =
                          new_account id (lower body.email) (hash_password body.password) body.role
                            (some org_id) in
                        let self : (org_id == org_id) ≡ true = (==_iff org_id org_id).1 refl in
                        let inside : beyond org_id b ≡ false = rw (self, modest) refl in
                        let added : SparesRows w.state.accounts (w.state.accounts ++ b ∷ []) = (
                          append-IsKeyed id_of b w.state.accounts fresh keyed,
                          select-append (beyond org_id) w.state.accounts (b ∷ [])
                              ∙ rw inside (append-nil (select (beyond org_id) w.state.accounts)),
                        ) in
                        let org_is : target_org actor body org_id ≡ some org_id =
                          rw (modest, plain) refl in
                        elim (Bool-cases (org_exists w.state.db (some org_id))) [
                          | inl known ↦ rw (create_user, free, modest, plain, known) added
                          | inr missing ↦
                              rw (create_user, free, modest, plain, missing) (keyed, refl)
                        ]
                  ]
                ]

    apply-Spares :
        (target : Login.Account) (body : UserUpdate) (now : ℕ)
        → get_account w.state.accounts target.user.id ≡ some target
        → beyond org_id target ≡ false
        → holds body.role (λ r. role_eq r super_admin) ≡ false
        → Spares w (write_update lower hash_password enabled reachable w target body actor now).0
    unfolding write_update invalidate
    apply-Spares target body now found near modest =
        let b = with_fields lower hash_password target body in
        let near2 = or-false (not (belongs target.user org_id)) (is_super target.user) near in
        let modest_role : is_super b.user ≡ false =
          or_kept-modest body.role target.user.role near2.1 modest in
        let inside : beyond org_id b ≡ false = rw (near2.0, modest_role) refl in
        let same : (write_update lower hash_password enabled reachable w target body actor
              now).0.state.accounts
            ≡ store w.state.accounts b =
          elim (Bool-cases (invalidates body)) [
            | inl ends ↦ rw (write_update, ends) refl
            | inr stays ↦ rw (write_update, stays) refl
          ] in
        rw same (
          update_rows-IsKeyed id_of target.user.id b w.state.accounts refl keyed,
          select-replace (beyond org_id) (λ (x : Login.Account). x.user.id == target.user.id) target
              near b w.state.accounts inside (keyed target.user.id) found,
        )

    update-Spares :
        (user_id : ℕ) (body : UserUpdate) (now : ℕ)
        → Spares w
            (update_user lower hash_password enabled reachable w user_id body org_id actor now).0
    unfolding update_user
    update-Spares user_id body now = elim (Result-cases (get_scoped_user w user_id actor org_id)) [
      | inr (e, refused) ↦ rw (update_user, refused) (keyed, refl)
      | inl (target, ok_target) ↦
          let (found, near) = get_scoped_user-eq-ok w user_id actor org_id plain ok_target in
          elim (Bool-cases (holds body.role (λ r. role_eq r super_admin))) [
            | inl top ↦ rw (update_user, ok_target, top, plain) (keyed, refl)
            | inr modest ↦
                rw (update_user, ok_target, modest) (apply-Spares target body now found near modest)
          ]
    ]

    delete-Spares : (user_id : ℕ) → Spares w (delete_user w user_id org_id actor).0
    unfolding delete_user
    delete-Spares user_id = elim (Result-cases (get_scoped_user w user_id actor org_id)) [
      | inr (e, refused) ↦ rw (delete_user, refused) (keyed, refl)
      | inl (target, ok_target) ↦
          let (found, near) = get_scoped_user-eq-ok w user_id actor org_id plain ok_target in
          elim (Bool-cases (target.user.id == actor.id)) [
            | inl self ↦ rw (delete_user, ok_target, self) (keyed, refl)
            | inr other ↦
                let gone : SparesRows w.state.accounts (
                    select (λ (a : Login.Account). not (a.user.id == target.user.id))
                      w.state.accounts) =
                  (
                    select-IsKeyed id_of _ w.state.accounts keyed,
                    select-delete (beyond org_id)
                        (λ (x : Login.Account). x.user.id == target.user.id) target near
                        w.state.accounts (keyed target.user.id) found,
                  ) in
                rw (delete_user, ok_target, other) gone
          ]
    ]

  Step-Spares :
      {w v : Worker}
      → is_super actor ≡ false
      → IsKeyed id_of w.state.accounts
      → Step w v
      → Spares w v
  Step-Spares {w} plain keyed (creates body id fresh e) =
      rw e (create-Spares w plain keyed body id fresh)
  Step-Spares {w} plain keyed (updates user_id body now e) =
      rw e (update-Spares w plain keyed user_id body now)
  Step-Spares {w} plain keyed (deletes user_id e) = rw e (delete-Spares w plain keyed user_id)

  -- Whatever series of requests an actor who is no super admin makes to create, change and delete
  -- users of his organization, the accounts of other organizations, those of none, and the super
  -- admins stay the same rows in the same order: none is changed, deleted or added. The identifiers are
  -- unique to begin with, and then stay so.
  pub Reach-Spares :
      {w v : Worker}
      → is_super actor ≡ false
      → IsKeyed id_of w.state.accounts
      → Reach w v
      → Spares w v
  Reach-Spares plain keyed here = (keyed, refl)
  Reach-Spares plain keyed (next r s) =
      let before = Reach-Spares plain keyed r in
      let last = Step-Spares plain before.0 s in (last.0, last.1 ∙ before.1)
