-- ===== src/Models/Attendance.antt =====
-- backend/app/models/attendance.py, what a report reads of a cardholder (backend/app/models/people.py), and
-- the rows of a report (backend/app/services/attendance.py).
use cerradura_magnetica.Prelude.{ℤ, ℕ, Bool, List, Option}
use cerradura_magnetica.Models.Gateway.{Event}
use cerradura_magnetica.Models.Access.{Holiday}

-- backend/app/models/attendance.py, and what the report reads of a cardholder (backend/app/models/people.py)
pub data LeaveType : Type 0 where
  leave business_trip : LeaveType

pub record Shift : Type 0 where
  pub id : ℕ
  pub organization_id : ℕ
  pub start_time : ℕ
  pub end_time : ℕ
  pub late_tolerance_minutes : ℕ
  pub early_leave_tolerance_minutes : ℕ
  pub days_of_week : List ℤ

pub record Leave : Type 0 where
  pub organization_id : ℕ
  pub cardholder_id : ℕ
  pub type : LeaveType
  pub date_from : ℕ
  pub date_to : ℕ

pub record ManualSign : Type 0 where
  pub organization_id : ℕ
  pub cardholder_id : ℕ
  pub signed_at : ℕ

pub record Employee : Type 0 where
  pub id : ℕ
  pub organization_id : ℕ
  pub department_id : Option ℕ
  pub shift_id : Option ℕ
  pub is_active : Bool

pub record Database : Type 0 where
  pub cardholders : List Employee
  pub events : List Event
  pub signs : List ManualSign
  pub leaves : List Leave
  pub holidays : List Holiday
  pub shifts : List Shift

pub data Status : Type 0 where
  holiday rest_day absent present late early_leave incomplete : Status
  on_leave : LeaveType → Status

pub record DayRow : Type 0 where
  pub cardholder : Employee
  pub day : ℕ
  pub check_in : Option ℕ
  pub check_out : Option ℕ
  pub statuses : List Status

pub data AttendanceError : Type 0 where
  reversed_range range_too_large unknown_timezone : AttendanceError
