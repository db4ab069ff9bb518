-- ===== src/Attendance/Desk/Soundness.antt =====
-- The rows that the attendance endpoints keep (backend/app/api/v1/attendance.py): shifts that end after they
-- begin, leaves in order, and both leaves and signs of a cardholder of their own organization.
use cerradura_magnetica.Prelude.{
  ℕ, List, [], ◌∷◌, leb, Bool-cases, Result-cases, inl, inr, All-append, All-select,
}
use cerradura_magnetica.Api.{get_or_404}
use cerradura_magnetica.Attendance.Desk.{
  LeaveRow, SignRow, Records, ShiftCreate, ShiftUpdate, LeaveCreate, ManualSignCreate, get_employee,
  create_shift, update_shift, delete_shift, create_leave, delete_leave, create_manual_sign,
  delete_manual_sign,
}
use cerradura_magnetica.Attendance.Desk.Shifts.{
  IsLeave, IsSign, IsSound, find_row-employs, create_shift-IsSound, update_shift-IsSound,
  delete_shift-IsSound,
}

pub data Request : Type 0 where
  adds_shift : ShiftCreate → Request
  changes_shift : ℕ → ShiftUpdate → Request
  drops_shift : ℕ → Request
  adds_leave : LeaveCreate → Request
  drops_leave : ℕ → Request
  adds_sign : ManualSignCreate → Request
  drops_sign : ℕ → Request

unfoldable pub handle : Records → ℕ × Request → Records
handle r (org_id, adds_shift body) = (create_shift r body org_id).0
handle r (org_id, changes_shift id body) = (update_shift r id body org_id).0
handle r (org_id, drops_shift id) = (delete_shift r id org_id).0
handle r (org_id, adds_leave body) = (create_leave r body org_id).0
handle r (org_id, drops_leave id) = (delete_leave r id org_id).0
handle r (org_id, adds_sign body) = (create_manual_sign r body org_id).0
handle r (org_id, drops_sign id) = (delete_manual_sign r id org_id).0

unfoldable pub handle_all : Records → List (ℕ × Request) → Records
handle_all r [] = r
handle_all r (q ∷ qs) = handle_all (handle r q) qs

create_leave-IsSound :
    (r : Records) (body : LeaveCreate) (org_id : ℕ)
    → IsSound r
    → IsSound (create_leave r body org_id).0
unfolding create_leave
create_leave-IsSound r body org_id h = elim (Bool-cases (leb body.date_from body.date_to)) [
  | inr reversed ↦ rw (reversed, create_leave) h
  | inl ordered ↦ elim (Result-cases (get_employee r.cardholders body.cardholder_id org_id)) [
    | inr (e, absent) ↦ rw (create_leave, ordered, absent) h
    | inl (holder, there) ↦
        let employed = find_row-employs r.cardholders org_id body.cardholder_id there in
        rw (create_leave, ordered, there)
          (record {
            shifts = h.shifts;
            leaves =
                All-append (IsLeave r.cardholders) r.leaves _ h.leaves ((ordered, employed), tt);
            signs = h.signs;
          })
  ]
]

delete_leave-IsSound :
    (r : Records) (id org_id : ℕ) → IsSound r → IsSound (delete_leave r id org_id).0
unfolding delete_leave
delete_leave-IsSound r id org_id h =
    elim (Result-cases
      (get_or_404 (λ (l : LeaveRow). l.id) (λ l. l.leave.organization_id) r.leaves id org_id)) [
        | inr (e, absent) ↦ rw (absent, delete_leave) h
        | inl (row, there) ↦
            rw (there, delete_leave)
              (record {
                shifts = h.shifts;
                leaves = All-select (IsLeave r.cardholders) _ r.leaves h.leaves;
                signs = h.signs;
              })
      ]

create_manual_sign-IsSound :
    (r : Records) (body : ManualSignCreate) (org_id : ℕ)
    → IsSound r
    → IsSound (create_manual_sign r body org_id).0
unfolding create_manual_sign
create_manual_sign-IsSound r body org_id h =
    elim (Result-cases (get_employee r.cardholders body.cardholder_id org_id)) [
      | inr (e, absent) ↦ rw (absent, create_manual_sign) h
      | inl (holder, there) ↦
          let employed = find_row-employs r.cardholders org_id body.cardholder_id there in
          rw (there, create_manual_sign)
            (record {
              shifts = h.shifts;
              leaves = h.leaves;
              signs = All-append (IsSign r.cardholders) r.signs _ h.signs (employed, tt);
            })
    ]

delete_manual_sign-IsSound :
    (r : Records) (id org_id : ℕ) → IsSound r → IsSound (delete_manual_sign r id org_id).0
unfolding delete_manual_sign
delete_manual_sign-IsSound r id org_id h =
    elim (Result-cases
      (get_or_404 (λ (s : SignRow). s.id) (λ s. s.sign.organization_id) r.signs id org_id)) [
        | inr (e, absent) ↦ rw (absent, delete_manual_sign) h
        | inl (row, there) ↦
            rw (there, delete_manual_sign)
              (record {
                shifts = h.shifts;
                leaves = h.leaves;
                signs = All-select (IsSign r.cardholders) _ r.signs h.signs;
              })
      ]

handle-IsSound : (r : Records) (q : ℕ × Request) → IsSound r → IsSound (handle r q)
unfolding handle
handle-IsSound r (org_id, adds_shift body) h = create_shift-IsSound r body org_id h
handle-IsSound r (org_id, changes_shift id body) h = update_shift-IsSound r id body org_id h
handle-IsSound r (org_id, drops_shift id) h = delete_shift-IsSound r id org_id h
handle-IsSound r (org_id, adds_leave body) h = create_leave-IsSound r body org_id h
handle-IsSound r (org_id, drops_leave id) h = delete_leave-IsSound r id org_id h
handle-IsSound r (org_id, adds_sign body) h = create_manual_sign-IsSound r body org_id h
handle-IsSound r (org_id, drops_sign id) h = delete_manual_sign-IsSound r id org_id h

-- Whatever requests the organizations make of the attendance endpoints, from tables that are so: every
-- shift begins before it ends and is on days of the week, every leave ends no earlier than it begins, and
-- every leave and every manual sign is of a cardholder of its own organization.
pub handle_all-IsSound :
    (r : Records) (qs : List (ℕ × Request)) → IsSound r → IsSound (handle_all r qs)
unfolding handle_all
handle_all-IsSound r [] h = h
handle_all-IsSound r (q ∷ qs) h = handle_all-IsSound (handle r q) qs (handle-IsSound r q h)
