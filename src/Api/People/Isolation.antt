-- ===== src/Api/People/Isolation.antt =====
-- The tables of cardholders and access levels under any requests to backend/app/api/v1/cardholders.py.
use cerradura_magnetica.Prelude.{
  update_row, exists_row-update_row, All-update_row, both, both_of, exists_row-select_imp,
  All-map_intro, ℕ, ◌≡◌, refl, ap, ◌∙◌, Bool, true, not, List, [], ◌∷◌, Option, some, ok, ◌==◌,
  ==_iff, Bool-cases, Result-cases, inl, inr, select, exists_row, All, All-select,
}
use cerradura_magnetica.Models.Access.{AccessLevel}
use cerradura_magnetica.Api.{get_or_404-eq-ok}
use cerradura_magnetica.Api.People.{
  Holder, Roster, CardholderCreate, CardholderUpdate, sent, check_owned, check_department,
  check_shift, without, create_cardholder, get_holder, write_fields, update_levels, is_null,
  update_cardholder, delete_cardholder,
}
use cerradura_magnetica.Api.People.Tenant.{is_row, IsPlaced, IsHeld, IsScoped, check_owned-refers}
use cerradura_magnetica.Api.People.Preserved.{
  create_cardholder-IsScoped, update_levels-IsHeld, write_fields-IsPlaced,
}

pub data Request : Type 0 where
  creates : CardholderCreate → Request
  updates : ℕ → CardholderUpdate → Request
  deletes : ℕ → Request

unfoldable pub handle : Roster → ℕ × Request → Roster
handle p (org_id, creates body) = (create_cardholder p body org_id).0
handle p (org_id, updates id body) = (update_cardholder p id body org_id).0
handle p (org_id, deletes id) = (delete_cardholder p id org_id).0

unfoldable pub handle_all : Roster → List (ℕ × Request) → Roster
handle_all p [] = p
handle_all p (q ∷ qs) = handle_all (handle p q) qs

-- What an update writes that is not refused.
written-IsScoped :
    (p : Roster) (holder_id : ℕ) (body : CardholderUpdate) (org_id : ℕ) {row : Holder}
    {d s : Option ℕ} {levels : List AccessLevel}
    → IsScoped p
    → get_holder p.holders holder_id org_id ≡ ok row
    → check_department p.departments (sent body.department_id) org_id ≡ ok d
    → check_shift p.shifts (sent body.shift_id) org_id ≡ ok s
    → update_levels p holder_id (sent body.access_level_ids) org_id ≡ ok levels
    → IsScoped (record p {
      holders = update_row (λ h. h.id == holder_id) (write_fields body) p.holders;
      levels = levels;
    })
unfolding check_owned
written-IsScoped p holder_id body org_id {row} {d} {s} {levels} h found department shift chosen =
    let after = update_row (λ h. h.id == holder_id) (write_fields body) p.holders in
    let kept : (x org : ℕ)
        → exists_row (is_row x org) p.holders ≡ true
        → exists_row (is_row x org) after ≡ true =
      λ x org.
        exists_row-update_row (is_row x org) (λ h. h.id == holder_id) (write_fields body) p.holders
          (λ y. refl) in
    let (first, named, own) =
      get_or_404-eq-ok (λ (y : Holder). y.id) (λ y. y.organization_id) p.holders holder_id org_id
        found in
    let loaded : is_row holder_id org_id row ≡ true =
      both (row.id == holder_id) (row.organization_id == org_id) ((==_iff row.id holder_id).1 named)
        ((==_iff row.organization_id org_id).1 own) in
    let there : exists_row (is_row holder_id org_id) p.holders ≡ true =
      check_owned-refers (λ (y : Holder). y.id) (λ y. y.organization_id) p.holders (some holder_id)
        org_id {answer = some holder_id} (rw (check_owned, found) refl) in
    record {
      placed =
          All-update_row (IsPlaced p.departments p.shifts) (λ h. h.id == holder_id)
            (write_fields body) p.holders first
            (write_fields-IsPlaced p body holder_id org_id department shift row loaded) h.placed;
      held =
          update_levels-IsHeld p after holder_id org_id (sent body.access_level_ids) kept
            (kept holder_id org_id there) chosen h.held;
    }

update_cardholder-IsScoped :
    (p : Roster) (holder_id : ℕ) (body : CardholderUpdate) (org_id : ℕ)
    → IsScoped p
    → IsScoped (update_cardholder p holder_id body org_id).0
unfolding update_cardholder
update_cardholder-IsScoped p holder_id body org_id h =
    elim (Result-cases (get_holder p.holders holder_id org_id)) [
      | inr (e, bad) ↦ rw (update_cardholder, bad) h
      | inl (row, found) ↦
          elim (Result-cases (check_department p.departments (sent body.department_id) org_id)) [
            | inr (e, bad) ↦ rw (update_cardholder, found, bad) h
            | inl (d, department) ↦
                elim (Result-cases (check_shift p.shifts (sent body.shift_id) org_id)) [
                  | inr (e, bad) ↦ rw (update_cardholder, found, department, bad) h
                  | inl (s, shift) ↦
                      elim (Result-cases
                        (update_levels p holder_id (sent body.access_level_ids) org_id)) [
                          | inr (e, bad) ↦ rw (update_cardholder, found, department, shift, bad) h
                          | inl (levels, chosen) ↦ elim (Bool-cases (is_null body.is_active)) [
                            | inl null ↦
                                rw (update_cardholder, found, department, shift, chosen, null) h
                            | inr written ↦
                                rw (update_cardholder, found, department, shift, chosen, written)
                                  (written-IsScoped p holder_id body org_id h found department shift
                                    chosen)
                          ]
                        ]
                ]
          ]
    ]

-- What the rows of a level keep when one cardholder goes.
deleted-IsHeld :
    (holders : List Holder) (holder_id org_id : ℕ) (ids : List ℕ)
    → All (λ x. exists_row (is_row x org_id) holders ≡ true) ids
    → All
        (λ x.
          exists_row (is_row x org_id) (select (λ (h : Holder). not (h.id == holder_id)) holders)
          ≡ true)
        (without holder_id ids)
deleted-IsHeld holders holder_id org_id [] h = tt
deleted-IsHeld holders holder_id org_id (x ∷ xs) h = elim (Bool-cases (not (x == holder_id))) [
  | inr gone ↦ rw gone (deleted-IsHeld holders holder_id org_id xs h.1)
  | inl other ↦ rw other (
    exists_row-select_imp (is_row x org_id) (λ (y : Holder). not (y.id == holder_id)) holders
        (λ y row.
          let (named, owned) = both_of (y.id == x) (y.organization_id == org_id) row in
          ap (λ n. not (n == holder_id)) ((==_iff y.id x).0 named) ∙ other)
        h.0,
    deleted-IsHeld holders holder_id org_id xs h.1,
  )
]

delete_cardholder-IsScoped :
    (p : Roster) (holder_id org_id : ℕ)
    → IsScoped p
    → IsScoped (delete_cardholder p holder_id org_id).0
unfolding delete_cardholder
delete_cardholder-IsScoped p holder_id org_id h =
    let stay : Holder → Bool = λ y. not (y.id == holder_id) in
    let removed : AccessLevel → AccessLevel =
      λ l. record l { cardholder_ids = without holder_id l.cardholder_ids } in
    elim (Result-cases (get_holder p.holders holder_id org_id)) [
      | inr (e, bad) ↦ rw (delete_cardholder, bad) h
      | inl (row, found) ↦
          rw (delete_cardholder, found)
            (record {
              placed = All-select (IsPlaced p.departments p.shifts) stay p.holders h.placed;
              held =
                  All-map_intro (IsHeld p.holders) (IsHeld (select stay p.holders)) removed p.levels
                    (λ l. deleted-IsHeld p.holders holder_id l.organization_id l.cardholder_ids)
                    h.held;
            })
    ]

handle-IsScoped : (p : Roster) (q : ℕ × Request) → IsScoped p → IsScoped (handle p q)
unfolding handle
handle-IsScoped p (org_id, creates body) h = create_cardholder-IsScoped p body org_id h
handle-IsScoped p (org_id, updates id body) h = update_cardholder-IsScoped p id body org_id h
handle-IsScoped p (org_id, deletes id) h = delete_cardholder-IsScoped p id org_id h

-- Whatever requests the organizations make of the endpoints that create, update and delete cardholders, from
-- tables that are so: the department and the shift of every cardholder, where it has them, are its own
-- organization's, and every access level is held by cardholders of its own organization only.
pub handle_all-IsScoped :
    (p : Roster) (requests : List (ℕ × Request)) → IsScoped p → IsScoped (handle_all p requests)
unfolding handle_all
handle_all-IsScoped p [] h = h
handle_all-IsScoped p (q ∷ qs) h = handle_all-IsScoped (handle p q) qs (handle-IsScoped p q h)
