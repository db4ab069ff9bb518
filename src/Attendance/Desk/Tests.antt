-- ===== src/Attendance/Desk/Tests.antt =====
-- One organization with a shift and a cardholder, and another that has neither.
use cerradura_magnetica.Prelude.{
  arith, pos, negsuc, ℤ, ℕ, ◌*◌, ◌≡◌, refl, true, List, [], ◌∷◌, none, some, err,
}
use cerradura_magnetica.Models.Attendance.{
  Shift, Employee, leave, absent, present, late, on_leave, DayRow,
}
use cerradura_magnetica.Api.{not_found, get_or_404}
use cerradura_magnetica.Attendance.Desk.{
  Records, unprocessable, bad_days, ShiftCreate, create_shift, bad_times, missing, ShiftUpdate,
  LeaveCreate, aware, create_leave, update_shift, to_utc,
}
use cerradura_magnetica.Attendance.Desk.Report.{summary_of}
use cerradura_magnetica.Attendance.Desk.Shifts.{IsSound}
use cerradura_magnetica.Attendance.Desk.Soundness.{
  Request, changes_shift, drops_shift, adds_leave, adds_sign, handle_all, handle_all-IsSound,
}

abbrev hour : ℕ
hour = 3600

abbrev morning : Shift
morning = record {
  id = 1;
  organization_id = 1;
  start_time = 8 * hour;
  end_time = 14 * hour;
  late_tolerance_minutes = 10;
  early_leave_tolerance_minutes = 10;
  days_of_week = pos 0 ∷ pos 1 ∷ [];
}

abbrev worker : Employee
worker = record {
  id = 3;
  organization_id = 1;
  department_id = none;
  shift_id = some 1;
  is_active = true;
}

abbrev records : Records
records = record {
  cardholders = worker ∷ [];
  shifts = morning ∷ [];
  leaves = [];
  signs = [];
  next_shift = 2;
  next_leave = 1;
  next_sign = 1;
}

abbrev ends_at_seven : ShiftUpdate
ends_at_seven = record {
  start_time = none;
  end_time = some (7 * hour);
  late_tolerance_minutes = none;
  early_leave_tolerance_minutes = none;
  days_of_week = none;
}

abbrev week_off : LeaveCreate
week_off = record { cardholder_id = 3; type = leave; date_from = 100; date_to = 106 }

abbrev shift_of : List ℤ → ShiftCreate
shift_of days = record {
  start_time = 8 * hour;
  end_time = 14 * hour;
  late_tolerance_minutes = 10;
  early_leave_tolerance_minutes = 10;
  days_of_week = days;
}

-- A shift that would end before it begins is refused, as is a leave of another organization's holder.
refusals :
    (update_shift records 1 ends_at_seven 1 ≡ (records, err bad_times))
    × (create_leave records week_off 2 ≡ (records, err (missing not_found)))
unfolding update_shift create_leave get_or_404
refusals = (refl, refl)

-- A day before Monday, as a client may send it, is refused.
negative_day :
    (create_shift records (shift_of (negsuc 0 ∷ [])) 1 ≡ (records, err unprocessable))
    × (update_shift records 1 (record ends_at_seven { days_of_week = some (negsuc 0 ∷ []) }) 1
        ≡ (records, err bad_days))
unfolding create_shift update_shift get_or_404
negative_day = (refl, refl)

-- Five hours west of UTC
late_sign : to_utc (aware (8 * hour) 0 (5 * hour)) ≡ 13 * hour
late_sign = refl

abbrev day_row : ℕ → DayRow
day_row day = record {
  cardholder = worker;
  day = day;
  check_in = none;
  check_out = none;
  statuses = [];
}

summary_run :
    summary_of (
      record (day_row 7) { statuses = present ∷ late ∷ [] }
      ∷ record (day_row 8) { statuses = on_leave leave ∷ [] }
      ∷ record (day_row 7) { statuses = absent ∷ [] }
      ∷ [])
    ≡ record {
      days = 2;
      present = 1;
      late = 1;
      early_leave = 0;
      absent = 1;
      on_leave = 1;
      incomplete = 0;
    }
unfolding summary_of
summary_run = refl

abbrev requests : List (ℕ × Request)
requests =
    (1, changes_shift 1 ends_at_seven)
    ∷ (1, adds_leave week_off)
    ∷ (1, adds_sign (record { cardholder_id = 3; signed_at = aware (8 * hour) 0 (5 * hour) }))
    ∷ (1, drops_shift 1)
    ∷ []

handle_all-IsSound_example : IsSound (handle_all records requests)
handle_all-IsSound_example = handle_all-IsSound records requests (record {
  shifts = ((refl, ((0, refl, omega arith), ((1, refl, omega arith), tt))), tt);
  leaves = tt;
  signs = tt;
})
