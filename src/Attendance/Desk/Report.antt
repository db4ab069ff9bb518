-- ===== src/Attendance/Desk/Report.antt =====
-- backend/app/api/v1/attendance.py: attendance_report, from the tables of Desk with the events and holidays.
-- The names of a row's holder and department are left out.
use cerradura_magnetica.Prelude.{
  ℕ, suc, ◌+◌, Bool, true, false, String, List, [], ◌∷◌, map, Option, Result, ok, err, ◌==◌,
  if◌then◌else◌, row_count, exists_row,
}
use cerradura_magnetica.Models.Gateway.{Event}
use cerradura_magnetica.Models.Access.{Holiday}
use cerradura_magnetica.Models.Attendance.{
  leave, business_trip, Employee, Database, Status, holiday, rest_day, absent, present, late,
  early_leave, incomplete, on_leave, DayRow,
}
use cerradura_magnetica.Attendance.{compute_attendance}
use cerradura_magnetica.Attendance.Desk.{Records, LeaveRow, SignRow, DeskError, bad_request}

pub record AttendanceSummary : Type 0 where
  pub days : ℕ
  pub present : ℕ
  pub late : ℕ
  pub early_leave : ℕ
  pub absent : ℕ
  pub on_leave : ℕ
  pub incomplete : ℕ

pub record AttendanceReport : Type 0 where
  pub date_from : ℕ
  pub date_to : ℕ
  pub rows : List DayRow
  pub summary : AttendanceSummary

-- A status by its name.
abbrev pub status_is : Status → Status → Bool
status_is holiday holiday = true
status_is rest_day rest_day = true
status_is absent absent = true
status_is present present = true
status_is late late = true
status_is early_leave early_leave = true
status_is incomplete incomplete = true
status_is (on_leave leave) (on_leave leave) = true
status_is (on_leave business_trip) (on_leave business_trip) = true
status_is _ _ = false

-- `count(name)`
abbrev pub count_status : List DayRow → Status → ℕ
count_status rows s = row_count (λ (r : DayRow). exists_row (status_is s) r.statuses) rows

-- `len` of the set of the dates
abbrev pub distinct_days : List DayRow → ℕ
distinct_days [] = 0
distinct_days (r ∷ rs) =
    let rest = distinct_days rs in
    if exists_row (λ (x : DayRow). x.day == r.day) rs then rest else suc rest

unfoldable pub summary_of : List DayRow → AttendanceSummary
summary_of rows = record {
  days = distinct_days rows;
  present = count_status rows present;
  late = count_status rows late;
  early_leave = count_status rows early_leave;
  absent = count_status rows absent;
  on_leave = count_status rows (on_leave leave) + count_status rows (on_leave business_trip);
  incomplete = count_status rows incomplete;
}

-- What compute_attendance reads.
abbrev pub read_by_report : Records → List Event → List Holiday → Database
read_by_report r events holidays = record {
  cardholders = r.cardholders;
  events = events;
  signs = map (λ (s : SignRow). s.sign) r.signs;
  leaves = map (λ (l : LeaveRow). l.leave) r.leaves;
  holidays = holidays;
  shifts = r.shifts;
}

module _ (zone : String → Option (ℕ → ℕ)) (order_by_name : List Employee → List Employee) where
  unfoldable pub attendance_report :
      Records
      → List Event
      → List Holiday
      → ℕ
      → ℕ
      → ℕ
      → Option ℕ
      → Option ℕ
      → String
      → Result DeskError AttendanceReport
  unfolding summary_of
  attendance_report r events holidays org_id date_from date_to department_id cardholder_id
        timezone =
      elim (compute_attendance zone order_by_name (read_by_report r events holidays) org_id
        date_from date_to department_id cardholder_id timezone) [
          | err e ↦ err (bad_request e)
          | ok rows ↦ ok (record {
            date_from = date_from;
            date_to = date_to;
            rows = rows;
            summary = summary_of rows;
          })
        ]
