-- ===== src/Api/People/Preserved.antt =====
-- What the handlers of backend/app/api/v1/cardholders.py keep of the tables of cardholders and levels.
use cerradura_magnetica.Prelude.{
  both, both_of, ℕ, ◌≡◌, refl, sym, subst, true, List, [], ◌∷◌, ◌++◌, map, Option, none, some, ok,
  err, ◌==◌, ==_iff, Result-cases, inl, inr, exists_row, exists_row-append_left,
  exists_row-append_last, All, All-append, All-imp,
}
use cerradura_magnetica.Models.Access.{AccessLevel}
use cerradura_magnetica.Models.Attendance.{Shift}
use cerradura_magnetica.Importer.{Department}
use cerradura_magnetica.Api.Credentials.{or_old}
use cerradura_magnetica.Api.People.{
  Holder, Roster, CardholderCreate, CardholderUpdate, sent, resolve_access_levels, check_department,
  check_shift, assign, new_holder, create_cardholder, write_fields, update_levels,
}
use cerradura_magnetica.Api.People.Tenant.{
  is_row, refers, IsPlaced, IsHeld, IsScoped, check_owned-refers, assigned-IsHeld,
}

pub create_cardholder-IsScoped :
    (p : Roster) (body : CardholderCreate) (org_id : ℕ)
    → IsScoped p
    → IsScoped (create_cardholder p body org_id).0
unfolding create_cardholder
create_cardholder-IsScoped p body org_id h =
    let holder = new_holder p.next_holder org_id body in
    elim (Result-cases (check_department p.departments body.department_id org_id)) [
      | inr (e, bad) ↦ rw (create_cardholder, bad) h
      | inl (d, department) ↦ elim (Result-cases (check_shift p.shifts body.shift_id org_id)) [
        | inr (e, bad) ↦ rw (create_cardholder, department, bad) h
        | inl (s, shift) ↦
            elim (Result-cases (resolve_access_levels p.levels org_id body.access_level_ids)) [
              | inr (e, bad) ↦ rw (create_cardholder, department, shift, bad) h
              | inl (found, resolved) ↦
                  let own : IsPlaced p.departments p.shifts holder = (
                    check_owned-refers (λ (x : Department). x.id) (λ x. x.organization_id)
                        p.departments body.department_id org_id department,
                    check_owned-refers (λ (x : Shift). x.id) (λ x. x.organization_id) p.shifts
                        body.shift_id org_id shift,
                  ) in
                  let self : is_row p.next_holder org_id holder ≡ true =
                    both (p.next_holder == p.next_holder) (org_id == org_id)
                      ((==_iff p.next_holder p.next_holder).1 refl)
                      ((==_iff org_id org_id).1 refl) in
                  rw (create_cardholder, department, shift, resolved)
                    (record {
                      placed =
                          All-append (IsPlaced p.departments p.shifts) p.holders (holder ∷ [])
                            h.placed (own, tt);
                      held =
                          assigned-IsHeld p (p.holders ++ holder ∷ []) p.next_holder org_id
                            body.access_level_ids
                            (λ x org. exists_row-append_left (is_row x org) p.holders (holder ∷ []))
                            (exists_row-append_last (is_row p.next_holder org_id) p.holders holder
                              self)
                            resolved h.held;
                    })
            ]
      ]
    ]

or_old-refers :
    {A : Type 0} (id_of org_of : A → ℕ) (rows : List A) (asked : Option (Option ℕ)) (old : Option ℕ)
    (org_id : ℕ)
    → refers id_of org_of rows org_id (sent asked) ≡ true
    → refers id_of org_of rows org_id old ≡ true
    → refers id_of org_of rows org_id (or_old asked old) ≡ true
or_old-refers id_of org_of rows none old org_id h k = k
or_old-refers id_of org_of rows (some value) old org_id h k = h

-- The levels after an update, which may leave them.
pub update_levels-IsHeld :
    (p : Roster) (after : List Holder) (holder_id org_id : ℕ) (asked : Option (List ℕ))
    {levels : List AccessLevel}
    → ((x org : ℕ)
        → exists_row (is_row x org) p.holders ≡ true
        → exists_row (is_row x org) after ≡ true)
    → exists_row (is_row holder_id org_id) after ≡ true
    → update_levels p holder_id asked org_id ≡ ok levels
    → All (IsHeld p.holders) p.levels
    → All (IsHeld after) levels
unfolding update_levels
update_levels-IsHeld p after holder_id org_id none {levels} kept there h held =
    let same : p.levels ≡ levels = cc in
    subst (All (IsHeld after)) same (
      All-imp (IsHeld p.holders) (IsHeld after) p.levels
        (λ l.
          All-imp (λ x. exists_row (is_row x l.organization_id) p.holders ≡ true)
            (λ x. exists_row (is_row x l.organization_id) after ≡ true) l.cardholder_ids
            (λ x. kept x l.organization_id))
        held)
update_levels-IsHeld p after holder_id org_id (some ids) {levels} kept there h held =
    elim (Result-cases (resolve_access_levels p.levels org_id ids)) [
      | inr (e, bad) ↦ let stuck : err e ≡ ok levels = rw (update_levels, bad) at h in cc
      | inl (found, resolved) ↦
          let done : ok (map (assign holder_id found) p.levels) ≡ ok levels =
            rw (update_levels, resolved) at h in
          let same : map (assign holder_id found) p.levels ≡ levels = cc in
          subst (All (IsHeld after)) same
            (assigned-IsHeld p after holder_id org_id ids kept there resolved held)
    ]

-- The fields that an update writes, in one row.
pub write_fields-IsPlaced :
    (p : Roster) (body : CardholderUpdate) (holder_id org_id : ℕ) {d s : Option ℕ}
    → check_department p.departments (sent body.department_id) org_id ≡ ok d
    → check_shift p.shifts (sent body.shift_id) org_id ≡ ok s
    → (h : Holder) → is_row holder_id org_id h ≡ true
    → IsPlaced p.departments p.shifts h
    → IsPlaced p.departments p.shifts (write_fields body h)
write_fields-IsPlaced p body holder_id org_id department shift h row placed =
    let (named, owned) = both_of (h.id == holder_id) (h.organization_id == org_id) row in
    let org : org_id ≡ h.organization_id = sym ((==_iff h.organization_id org_id).0 owned) in
    let asked_department =
      check_owned-refers (λ (x : Department). x.id) (λ x. x.organization_id) p.departments
        (sent body.department_id) org_id department in
    let asked_shift =
      check_owned-refers (λ (x : Shift). x.id) (λ x. x.organization_id) p.shifts
        (sent body.shift_id) org_id shift in
    (
      or_old-refers (λ (x : Department). x.id) (λ x. x.organization_id) p.departments
          body.department_id h.department_id h.organization_id
          (subst
            (λ o.
              refers (λ (x : Department). x.id) (λ x. x.organization_id) p.departments o
                (sent body.department_id)
              ≡ true)
            org asked_department)
          placed.0,
      or_old-refers (λ (x : Shift). x.id) (λ x. x.organization_id) p.shifts body.shift_id h.shift_id
          h.organization_id
          (subst
            (λ o.
              refers (λ (x : Shift). x.id) (λ x. x.organization_id) p.shifts o (sent body.shift_id)
              ≡ true)
            org asked_shift)
          placed.1,
    )
