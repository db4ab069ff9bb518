-- ===== src/Attendance/Tests.antt =====
-- A Monday (day 8 is one) of a holder who works from eight to five, and a report of two days.
use cerradura_magnetica.Prelude.{
  pos, ℕ, ◌≡◌, ◌≤◌, ◌*◌, refl, true, false, String, text_eq, List, [], ◌∷◌, Option, none, some,
  arith, ok, if◌then◌else◌, length,
}
use cerradura_magnetica.Models.Attendance.{Employee, Shift, Database, DayRow, present, late}
use cerradura_magnetica.Attendance.{Report, evaluate_day, compute_attendance}
use cerradura_magnetica.Attendance.Statuses.{marks, verdict, statuses_exact}
use cerradura_magnetica.Attendance.Days.{all_rows, report_complete}

abbrev clerk : Employee
clerk = record {
  id = 3;
  organization_id = 1;
  department_id = none;
  shift_id = some 2;
  is_active = true;
}

abbrev office : Shift
office = record {
  id = 2;
  organization_id = 1;
  start_time = 28800;
  end_time = 61200;
  late_tolerance_minutes = 10;
  early_leave_tolerance_minutes = 10;
  days_of_week = pos 0 ∷ pos 1 ∷ pos 2 ∷ pos 3 ∷ pos 4 ∷ [];
}

-- At five past five, and at a quarter past eight.
abbrev punched : List ℕ
punched = 752700 ∷ 720900 ∷ []

abbrev row : DayRow
row = evaluate_day clerk (some office) 8 punched none false

monday :
    (row.check_in ≡ some 720900)
    × (row.check_out ≡ some 752700)
    × (row.statuses ≡ present ∷ late ∷ [])
unfolding evaluate_day
monday = (refl, refl, refl)

statuses_exact_example : marks row.statuses ≡ verdict (some office) 8 punched none false
statuses_exact_example = statuses_exact clerk (some office) 8 punched none false

abbrev database : Database
database = record {
  cardholders = clerk ∷ [];
  events = [];
  signs = [];
  leaves = [];
  holidays = [];
  shifts = office ∷ [];
}

abbrev zone : String → Option (ℕ → ℕ)
zone name = if text_eq name "UTC" then some (λ t. t) else none

abbrev as_stored : List Employee → List Employee
as_stored hs = hs

abbrev report : Report
report = record { organization_id = 1; date_from = 8; date_to = 9; to_local = λ t. t }

report_complete_example :
    (compute_attendance zone as_stored database 1 8 9 none none "UTC"
      ≡ ok (all_rows database report (clerk ∷ [])))
    × (length (all_rows database report (clerk ∷ [])) ≤ 92 * 1)
report_complete_example =
    report_complete zone as_stored database 1 8 9 none none "UTC" (λ t. t) (omega arith)
      (omega arith) refl
