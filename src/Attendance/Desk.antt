-- ===== src/Attendance/Desk.antt =====
-- backend/app/api/v1/attendance.py: shifts, leaves and manual signs, and the report with its summary. The
-- bodies' `model_validator`s are those of backend/app/schemas/attendance.py. A handler that raises commits
-- nothing, so that the tables stay. Names, notes, kinds of a sign and audit rows are left out, and so are the
-- listings, a field sent as null, and the ranges of single fields (`Field(ge=..., le=...)`).
pub mod Report
pub mod Shifts
pub mod Soundness
pub mod Tests
use cerradura_magnetica.Prelude.{
  ℤ, pos, lt_int, exists_row, ℕ, suc, ◌+◌, ◌-◌, Bool, ◌||◌, not, List, [], ◌∷◌, ◌++◌, Option, none,
  some, Result, ok, err, leb, ltb, ◌==◌, if◌then◌else◌, holds, select, update_rows,
}
use cerradura_magnetica.Models.Attendance.{
  LeaveType, leave, Shift, Leave, ManualSign, Employee, AttendanceError,
}
use cerradura_magnetica.Api.{ApiError, get_or_404}

-- A leave and a sign with the identifiers of their rows.
pub record LeaveRow : Type 0 where
  pub id : ℕ
  pub leave : Leave

pub record SignRow : Type 0 where
  pub id : ℕ
  pub sign : ManualSign

-- The tables, with the next identifier of each.
pub record Records : Type 0 where
  pub cardholders : List Employee
  pub shifts : List Shift
  pub leaves : List LeaveRow
  pub signs : List SignRow
  pub next_shift : ℕ
  pub next_leave : ℕ
  pub next_sign : ℕ

-- A body that its schema refuses, a row that is missing or another organization's, the two tests of
-- update_shift, and what compute_attendance raises.
pub data DeskError : Type 0 where
  unprocessable bad_days bad_times : DeskError
  missing : ApiError → DeskError
  bad_request : AttendanceError → DeskError

pub record ShiftCreate : Type 0 where
  pub start_time : ℕ
  pub end_time : ℕ
  pub late_tolerance_minutes : ℕ
  pub early_leave_tolerance_minutes : ℕ
  pub days_of_week : List ℤ

pub record ShiftUpdate : Type 0 where
  pub start_time : Option ℕ
  pub end_time : Option ℕ
  pub late_tolerance_minutes : Option ℕ
  pub early_leave_tolerance_minutes : Option ℕ
  pub days_of_week : Option (List ℤ)

pub record LeaveCreate : Type 0 where
  pub cardholder_id : ℕ
  pub type : LeaveType
  pub date_from : ℕ
  pub date_to : ℕ

-- A time without an offset, or a local time with its offset to the east or to the west of UTC.
pub data SignedAt : Type 0 where
  naive : ℕ → SignedAt
  aware : (local east west : ℕ) → SignedAt

pub record ManualSignCreate : Type 0 where
  pub cardholder_id : ℕ
  pub signed_at : SignedAt

-- `d < 0 or d > 6`
abbrev pub off_week : ℤ → Bool
off_week d = lt_int d (pos 0) || lt_int (pos 6) d

abbrev pub are_weekdays : List ℤ → Bool
are_weekdays days = not (exists_row off_week days)

abbrev pub or_before : {A : Type 0} → Option A → A → A
or_before none old = old
or_before (some new) old = new

abbrev pub new_shift : ℕ → ℕ → ShiftCreate → Shift
new_shift id org_id body = record {
  id = id;
  organization_id = org_id;
  start_time = body.start_time;
  end_time = body.end_time;
  late_tolerance_minutes = body.late_tolerance_minutes;
  early_leave_tolerance_minutes = body.early_leave_tolerance_minutes;
  days_of_week = body.days_of_week;
}

abbrev pub set_fields : Shift → ShiftUpdate → Shift
set_fields s body = record s {
  start_time = or_before body.start_time s.start_time;
  end_time = or_before body.end_time s.end_time;
  late_tolerance_minutes = or_before body.late_tolerance_minutes s.late_tolerance_minutes;
  early_leave_tolerance_minutes =
      or_before body.early_leave_tolerance_minutes s.early_leave_tolerance_minutes;
  days_of_week = or_before body.days_of_week s.days_of_week;
}

abbrev pub get_shift : List Shift → ℕ → ℕ → Result ApiError Shift
get_shift = get_or_404 (λ s. s.id) (λ s. s.organization_id)

abbrev pub get_employee : List Employee → ℕ → ℕ → Result ApiError Employee
get_employee = get_or_404 (λ e. e.id) (λ e. e.organization_id)

unfoldable pub create_shift : Records → ShiftCreate → ℕ → Records × Result DeskError Shift
create_shift r body org_id =
    if not (ltb body.start_time body.end_time) || not (are_weekdays body.days_of_week)
    then (r, err unprocessable)
    else let shift = new_shift r.next_shift org_id body in
      (record r { shifts = r.shifts ++ shift ∷ []; next_shift = suc r.next_shift }, ok shift)

unfoldable pub update_shift : Records → ℕ → ShiftUpdate → ℕ → Records × Result DeskError Shift
update_shift r shift_id body org_id = elim (get_shift r.shifts shift_id org_id) [
  | err e ↦ (r, err (missing e))
  | ok shift ↦
      if holds body.days_of_week (λ days. not (are_weekdays days))
      then (r, err bad_days)
      else if not (ltb (set_fields shift body).start_time (set_fields shift body).end_time)
      then (r, err bad_times)
      else (
        record r {
          shifts =
              update_rows (λ (s : Shift). s.id == shift_id) (λ _. set_fields shift body) r.shifts;
        },
        ok (set_fields shift body),
      )
]

-- The foreign key of the cardholders is set to null.
abbrev pub unassign : ℕ → List Employee → List Employee
unassign shift_id holders =
    update_rows (λ (e : Employee). holds e.shift_id (λ s. s == shift_id))
      (λ e. record e { shift_id = none }) holders

unfoldable pub delete_shift : Records → ℕ → ℕ → Records × Result DeskError (Unit {0})
delete_shift r shift_id org_id = elim (get_shift r.shifts shift_id org_id) [
  | err e ↦ (r, err (missing e))
  | ok shift ↦ (
    record r {
      shifts = select (λ (s : Shift). not (s.id == shift_id)) r.shifts;
      cardholders = unassign shift_id r.cardholders;
    },
    ok tt,
  )
]

unfoldable pub create_leave : Records → LeaveCreate → ℕ → Records × Result DeskError LeaveRow
create_leave r body org_id =
    if not (leb body.date_from body.date_to)
    then (r, err unprocessable)
    else (elim (get_employee r.cardholders body.cardholder_id org_id) [
      | err e ↦ (r, err (missing e))
      | ok holder ↦
          let row : LeaveRow = record {
            id = r.next_leave;
            leave = record {
              organization_id = org_id;
              cardholder_id = body.cardholder_id;
              type = body.type;
              date_from = body.date_from;
              date_to = body.date_to;
            };
          } in
          (record r { leaves = r.leaves ++ row ∷ []; next_leave = suc r.next_leave }, ok row)
    ])

unfoldable pub delete_leave : Records → ℕ → ℕ → Records × Result DeskError (Unit {0})
delete_leave r leave_id org_id =
    elim (get_or_404 (λ (l : LeaveRow). l.id) (λ l. l.leave.organization_id) r.leaves leave_id
      org_id) [
        | err e ↦ (r, err (missing e))
        | ok row ↦ (
          record r { leaves = select (λ (l : LeaveRow). not (l.id == leave_id)) r.leaves },
          ok tt,
        )
      ]

-- `astimezone(UTC)` where there is an offset, and then none.
abbrev pub to_utc : SignedAt → ℕ
to_utc (naive t) = t
to_utc (aware local east west) = (local + west) - east

unfoldable pub create_manual_sign :
    Records → ManualSignCreate → ℕ → Records × Result DeskError SignRow
create_manual_sign r body org_id = elim (get_employee r.cardholders body.cardholder_id org_id) [
  | err e ↦ (r, err (missing e))
  | ok holder ↦
      let row : SignRow = record {
        id = r.next_sign;
        sign = record {
          organization_id = org_id;
          cardholder_id = body.cardholder_id;
          signed_at = to_utc body.signed_at;
        };
      } in
      (record r { signs = r.signs ++ row ∷ []; next_sign = suc r.next_sign }, ok row)
]

unfoldable pub delete_manual_sign : Records → ℕ → ℕ → Records × Result DeskError (Unit {0})
delete_manual_sign r sign_id org_id =
    elim (get_or_404 (λ (s : SignRow). s.id) (λ s. s.sign.organization_id) r.signs sign_id org_id) [
      | err e ↦ (r, err (missing e))
      | ok row ↦
          (record r { signs = select (λ (s : SignRow). not (s.id == sign_id)) r.signs }, ok tt)
    ]
