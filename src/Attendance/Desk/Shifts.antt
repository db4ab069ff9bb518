-- ===== src/Attendance/Desk/Shifts.antt =====
-- What is kept of the rows of shifts, leaves and signs, and how the endpoints on shifts
-- (backend/app/api/v1/attendance.py) keep it.
use cerradura_magnetica.Prelude.{
  ℤ, pos, negsuc, ◌≤◌, ℕ, ◌≡◌, refl, ◌∙◌, Bool, true, false, ◌&&◌, not, List, [], ◌∷◌, Option, none,
  some, ok, arith, leb, ltb, ◌==◌, ==_iff, holds, Bool-cases, Result-cases, inl, inr, exists_row,
  All, All-append, All-select, All-imp, All-find_row, All-update_rows_to, find_row-exists_row,
}
use cerradura_magnetica.Models.Attendance.{Shift, Employee}
use cerradura_magnetica.Api.{get_or_404-eq-ok}
use cerradura_magnetica.Attendance.Desk.{
  LeaveRow, SignRow, Records, ShiftCreate, ShiftUpdate, are_weekdays, or_before, set_fields,
  off_week, get_shift, get_employee, create_shift, update_shift, unassign, delete_shift,
}

abbrev pub IsWeekday : ℤ → Type 0
IsWeekday d = (n : ℕ) × (d ≡ pos n) × (n ≤ 6)

-- It begins before it ends, and is on days that are from 0 to 6.
abbrev pub IsShift : Shift → Type 0
IsShift s = (ltb s.start_time s.end_time ≡ true) × All IsWeekday s.days_of_week

-- There is such a cardholder in the organization.
abbrev pub employs : List Employee → ℕ → ℕ → Bool
employs holders org_id id =
    exists_row (λ (e : Employee). e.id == id && e.organization_id == org_id) holders

abbrev pub IsLeave : List Employee → LeaveRow → Type 0
IsLeave holders l =
    (leb l.leave.date_from l.leave.date_to ≡ true)
    × (employs holders l.leave.organization_id l.leave.cardholder_id ≡ true)

abbrev pub IsSign : List Employee → SignRow → Type 0
IsSign holders s = employs holders s.sign.organization_id s.sign.cardholder_id ≡ true

pub record IsSound (r : Records) : Type 0 where
  pub shifts : All IsShift r.shifts
  pub leaves : All (IsLeave r.cardholders) r.leaves
  pub signs : All (IsSign r.cardholders) r.signs

off_week-IsWeekday : (d : ℤ) → off_week d ≡ false → IsWeekday d
off_week-IsWeekday (pos n) h = (n, refl, ground (arith, h))
off_week-IsWeekday (negsuc n) h = cc

are_weekdays-IsWeekday : (days : List ℤ) → are_weekdays days ≡ true → All IsWeekday days
are_weekdays-IsWeekday [] h = tt
are_weekdays-IsWeekday (d ∷ ds) h = elim (Bool-cases (off_week d)) [
  | inl off ↦ absurd (ground (arith, h, off))
  | inr on ↦ (off_week-IsWeekday d on, are_weekdays-IsWeekday ds (ground (arith, h, on)))
]

pub find_row-employs :
    (holders : List Employee) (org_id id : ℕ) {e : Employee}
    → get_employee holders id org_id ≡ ok e
    → employs holders org_id id ≡ true
find_row-employs holders org_id id {e} h =
    let (found, named, own) =
      get_or_404-eq-ok (λ x. x.id) (λ x. x.organization_id) holders id org_id h in
    let same_id = (==_iff e.id id).1 named in
    let same_org = (==_iff e.organization_id org_id).1 own in
    find_row-exists_row (λ (x : Employee). x.id == id)
      (λ (x : Employee). x.id == id && x.organization_id == org_id) holders found
      (rw (same_id, same_org) refl)

pub employs-unassign :
    (shift_id org_id id : ℕ) (holders : List Employee)
    → employs (unassign shift_id holders) org_id id ≡ employs holders org_id id
employs-unassign shift_id org_id id [] = refl
employs-unassign shift_id org_id id (e ∷ es) =
    rw (employs-unassign shift_id org_id id es) (ground arith)

pub create_shift-IsSound :
    (r : Records) (body : ShiftCreate) (org_id : ℕ)
    → IsSound r
    → IsSound (create_shift r body org_id).0
unfolding create_shift
create_shift-IsSound r body org_id h = elim (Bool-cases (ltb body.start_time body.end_time)) [
  | inr late_start ↦ rw late_start h
  | inl ordered ↦ elim (Bool-cases (are_weekdays body.days_of_week)) [
    | inr strange ↦ rw (ordered, strange) h
    | inl weekdays ↦
        rw (ordered, weekdays)
          (record {
            shifts =
                All-append IsShift r.shifts _ h.shifts
                  ((ordered, are_weekdays-IsWeekday body.days_of_week weekdays), tt);
            leaves = h.leaves;
            signs = h.signs;
          })
  ]
]

kept_weekdays :
    (asked : Option (List ℤ)) (old : List ℤ)
    → All IsWeekday old
    → holds asked (λ days. not (are_weekdays days)) ≡ false
    → All IsWeekday (or_before asked old)
kept_weekdays none old h k = h
kept_weekdays (some days) old h k = are_weekdays-IsWeekday days (ground (arith, k))

set_fields-IsShift :
    (s : Shift) (body : ShiftUpdate)
    → IsShift s
    → holds body.days_of_week (λ days. not (are_weekdays days)) ≡ false
    → ltb (set_fields s body).start_time (set_fields s body).end_time ≡ true
    → IsShift (set_fields s body)
set_fields-IsShift s body h days ordered =
    (ordered, kept_weekdays body.days_of_week s.days_of_week h.1 days)

pub update_shift-IsSound :
    (r : Records) (id : ℕ) (body : ShiftUpdate) (org_id : ℕ)
    → IsSound r
    → IsSound (update_shift r id body org_id).0
unfolding update_shift
update_shift-IsSound r id body org_id h = elim (Result-cases (get_shift r.shifts id org_id)) [
  | inr (e, absent) ↦ rw (absent, update_shift) h
  | inl (shift, there) ↦
      let (found, named, own) =
        get_or_404-eq-ok (λ x. x.id) (λ x. x.organization_id) r.shifts id org_id there in
      let before = All-find_row IsShift _ r.shifts h.shifts found in
      elim (Bool-cases (holds body.days_of_week (λ days. not (are_weekdays days)))) [
        | inl strange ↦ rw (there, update_shift, strange) h
        | inr weekdays ↦
            elim (Bool-cases
              (ltb (set_fields shift body).start_time (set_fields shift body).end_time)) [
                | inr late_start ↦ rw (there, update_shift, weekdays, late_start) h
                | inl ordered ↦
                    let after = set_fields-IsShift shift body before weekdays ordered in
                    let rows =
                      All-update_rows_to IsShift IsShift (λ (s : Shift). s.id == id)
                        (λ _. set_fields shift body) r.shifts (λ s hit old. after)
                        (λ s miss old. old) h.shifts in
                    rw (there, update_shift, weekdays, ordered)
                      (record { shifts = rows; leaves = h.leaves; signs = h.signs })
              ]
      ]
]

pub delete_shift-IsSound :
    (r : Records) (id org_id : ℕ) → IsSound r → IsSound (delete_shift r id org_id).0
unfolding delete_shift
delete_shift-IsSound r id org_id h = elim (Result-cases (get_shift r.shifts id org_id)) [
  | inr (e, absent) ↦ rw (absent, delete_shift) h
  | inl (shift, there) ↦
      let same = λ (org : ℕ) (holder : ℕ). employs-unassign id org holder r.cardholders in
      rw (there, delete_shift)
        (record {
          shifts = All-select IsShift _ r.shifts h.shifts;
          leaves =
              All-imp (IsLeave r.cardholders) _ r.leaves
                (λ l k. (k.0, same l.leave.organization_id l.leave.cardholder_id ∙ k.1)) h.leaves;
          signs =
              All-imp (IsSign r.cardholders) _ r.signs
                (λ s k. same s.sign.organization_id s.sign.cardholder_id ∙ k) h.signs;
        })
]
