-- ===== src/Attendance.antt =====
-- backend/app/services/attendance.py: the attendance report. A date is its ordinal (`date.toordinal`), so
-- that a weekday is `(day + 6) % 7`; an instant, stored in UTC or local, is a number of seconds whose
-- quotient by a day's is its date. The time zone database is a parameter, which gives `none` where
-- `ZoneInfo` raises and otherwise the local time of an instant; so is the database's ORDER BY on names.
-- Limits are compared without subtraction.
pub mod Sorting
pub mod Days
pub mod Punches
pub mod Statuses
pub mod Desk
pub mod Tests
use cerradura_magnetica.Models.Attendance.{
  Shift, Leave, ManualSign, Employee, Database, Status, DayRow, AttendanceError, holiday, rest_day,
  absent, present, late, early_leave, incomplete, on_leave, reversed_range, range_too_large,
  unknown_timezone,
}
use cerradura_magnetica.Prelude.{
  pos, eq_int, ℕ, zero, suc, ◌+◌, ◌-◌, ◌*◌, ◌/◌, ◌%◌, Bool, true, false, ◌&&◌, String, List, [],
  ◌∷◌, ◌++◌, map, Option, none, some, Result, ok, err, leb, ltb, ◌==◌, if◌then◌else◌, holds,
  is_none, select, find_row, exists_row,
}
use cerradura_magnetica.Models.Gateway.{Event, EventType, access_granted}
use cerradura_magnetica.Models.Access.{Holiday}

abbrev pub max_range_days : ℕ
max_range_days = 92

abbrev pub day_seconds : ℕ
day_seconds = 86400

-- `sorted`
abbrev pub insert : ℕ → List ℕ → List ℕ
insert t [] = t ∷ []
insert t (u ∷ us) = let rest = insert t us in if leb t u then t ∷ u ∷ us else u ∷ rest

abbrev pub sorted : List ℕ → List ℕ
sorted [] = []
sorted (t ∷ ts) = insert t (sorted ts)

-- `day_punches[0] if day_punches else None`
abbrev pub first_of : List ℕ → Option ℕ
first_of [] = none
first_of (t ∷ ts) = some t

abbrev pub last_of : ℕ → List ℕ → ℕ
last_of t [] = t
last_of t (u ∷ us) = last_of u us

-- `day_punches[-1] if len(day_punches) > 1 else None`
abbrev pub last_of_many : List ℕ → Option ℕ
last_of_many [] = none
last_of_many (t ∷ []) = none
last_of_many (t ∷ u ∷ us) = some (last_of u us)

abbrev pub is_granted : EventType → Bool
is_granted access_granted = true
is_granted _ = false

-- `range_start <= t < range_end`: from the day before the range to the day after it, whole.
abbrev pub in_range : ℕ → ℕ → ℕ → Bool
in_range date_from date_to t =
    leb (date_from * day_seconds) (t + day_seconds) && ltb t ((date_to + 2) * day_seconds)

abbrev pub punch_event : ℕ → ℕ → ℕ → ℕ → Event → Bool
punch_event organization_id date_from date_to holder_id ev =
    ev.organization_id == organization_id
    && is_granted ev.type
    && holds ev.cardholder_id (λ id. id == holder_id)
    && in_range date_from date_to ev.occurred_at

abbrev pub punch_sign : ℕ → ℕ → ℕ → ℕ → ManualSign → Bool
punch_sign organization_id date_from date_to holder_id s =
    s.organization_id == organization_id
    && s.cardholder_id == holder_id
    && in_range date_from date_to s.signed_at

-- `punches[(holder_id, day)]`: the local times of granted swipes, then those of manual signs.
unfoldable pub punches : Database → ℕ → ℕ → ℕ → (ℕ → ℕ) → ℕ → ℕ → List ℕ
punches db organization_id date_from date_to to_local holder_id day =
    select (λ t. t / day_seconds == day)
      (map (λ (ev : Event). to_local ev.occurred_at)
          (select (punch_event organization_id date_from date_to holder_id) db.events)
        ++ map (λ (s : ManualSign). to_local s.signed_at)
            (select (punch_sign organization_id date_from date_to holder_id) db.signs))

abbrev pub relevant_leave : ℕ → ℕ → ℕ → ℕ → Leave → Bool
relevant_leave organization_id date_from date_to holder_id lv =
    lv.organization_id == organization_id
    && lv.cardholder_id == holder_id
    && leb lv.date_from date_to
    && leb date_from lv.date_to

abbrev pub covers : ℕ → Leave → Bool
covers day lv = leb lv.date_from day && leb day lv.date_to

-- `next((lv for lv in leaves.get(holder.id, []) if ...), None)`
unfoldable pub leave_on : Database → ℕ → ℕ → ℕ → ℕ → ℕ → Option Leave
leave_on db organization_id date_from date_to holder_id day =
    find_row (covers day)
      (select (relevant_leave organization_id date_from date_to holder_id) db.leaves)

unfoldable pub holiday_on : Database → ℕ → ℕ → ℕ → ℕ → Bool
holiday_on db organization_id date_from date_to day =
    exists_row
      (λ (h : Holiday).
        h.date == day
        && (h.organization_id == organization_id && leb date_from h.date && leb h.date date_to))
      db.holidays

abbrev pub weekday : ℕ → ℕ
weekday day = (day + 6) % 7

-- `shift is not None and day.weekday() in (shift.days_of_week or [])`
abbrev pub is_workday : Option Shift → ℕ → Bool
is_workday shift day =
    holds shift (λ s. exists_row (λ d. eq_int d (pos (weekday day))) s.days_of_week)

abbrev pub late_limit : Shift → ℕ → ℕ
late_limit s day = day * day_seconds + s.start_time + s.late_tolerance_minutes * 60

-- `check_out < early_limit`
abbrev pub leaves_early : Shift → ℕ → ℕ → Bool
leaves_early s day check_out =
    ltb (check_out + s.early_leave_tolerance_minutes * 60) (day * day_seconds + s.end_time)

abbrev pub when : Bool → Status → List Status
when test status = if test then status ∷ [] else []

-- The statuses of a working day with punches.
abbrev pub worked : Option Shift → ℕ → Option ℕ → Option ℕ → List Status
worked none day check_in check_out = present ∷ when (is_none check_out) incomplete
worked (some s) day check_in check_out =
    present
    ∷ (when (holds check_in (λ t. ltb (late_limit s day) t)) late
        ++ when (holds check_out (leaves_early s day)) early_leave
        ++ when (is_none check_out) incomplete)

abbrev pub day_statuses : Option Shift → ℕ → List ℕ → Option Leave → Bool → List Status
day_statuses shift day day_punches absence off_day =
    let off = if is_none (first_of day_punches) then rest_day ∷ [] else present ∷ [] in
    let work =
      if is_none (first_of day_punches)
      then absent ∷ []
      else worked shift day (first_of day_punches) (last_of_many day_punches) in
    let by_shift = if is_workday shift day then work else off in
    if off_day
    then holiday ∷ []
    else (elim absence [ some lv ↦ on_leave lv.type ∷ [] | none ↦ by_shift ])

unfoldable pub evaluate_day : Employee → Option Shift → ℕ → List ℕ → Option Leave → Bool → DayRow
evaluate_day holder shift day punched absence off_day =
    let day_punches = sorted punched in
    record {
      cardholder = holder;
      day = day;
      check_in = first_of day_punches;
      check_out = last_of_many day_punches;
      statuses = day_statuses shift day day_punches absence off_day;
    }

-- `while day <= date_to`, on fuel.
unfoldable pub each_day {ℓ} : {A : Type ℓ} → (ℕ → A) → ℕ → ℕ → ℕ → List A
each_day row date_to zero day = []
each_day row date_to (suc fuel) day =
    let rest = each_day row date_to fuel (suc day) in if leb day date_to then row day ∷ rest else []

abbrev pub wanted : Option ℕ → Option ℕ → Bool
wanted none value = true
wanted (some id) value = holds value (λ v. v == id)

abbrev pub reported : ℕ → Option ℕ → Option ℕ → Employee → Bool
reported organization_id department_id cardholder_id h =
    h.organization_id == organization_id
    && h.is_active
    && wanted department_id h.department_id
    && wanted cardholder_id (some h.id)

-- `shifts.get(holder.shift_id) if holder.shift_id else None`
unfoldable pub shift_of : Database → ℕ → Employee → Option Shift
shift_of db organization_id holder = elim holder.shift_id [
  | none ↦ none
  | some id ↦
      if id == 0
      then none
      else find_row (λ (s : Shift). s.id == id)
          (select (λ (s : Shift). s.organization_id == organization_id) db.shifts)
]

-- The range of a report and the local time that it is made in.
pub record Report : Type 0 where
  pub organization_id : ℕ
  pub date_from : ℕ
  pub date_to : ℕ
  pub to_local : ℕ → ℕ

unfoldable pub day_row : Database → Report → Employee → ℕ → DayRow
day_row db r holder day =
    evaluate_day holder (shift_of db r.organization_id holder) day
      (punches db r.organization_id r.date_from r.date_to r.to_local holder.id day)
      (leave_on db r.organization_id r.date_from r.date_to holder.id day)
      (holiday_on db r.organization_id r.date_from r.date_to day)

unfoldable pub holder_rows : Database → Report → List Employee → List DayRow
holder_rows db r [] = []
holder_rows db r (h ∷ hs) =
    each_day (day_row db r h) r.date_to (suc (r.date_to - r.date_from)) r.date_from
    ++ holder_rows db r hs

module _ (zone : String → Option (ℕ → ℕ)) (order_by_name : List Employee → List Employee) where
  unfoldable pub compute_attendance :
      Database → ℕ → ℕ → ℕ → Option ℕ → Option ℕ → String → Result AttendanceError (List DayRow)
  unfolding holder_rows
  compute_attendance db organization_id date_from date_to department_id cardholder_id timezone =
      if ltb date_to date_from
      then err reversed_range
      else if ltb max_range_days ((date_to - date_from) + 1)
      then err range_too_large
      else elim (zone timezone) [
        | none ↦ err unknown_timezone
        | some to_local ↦ ok (
            holder_rows db
              (record {
                organization_id = organization_id;
                date_from = date_from;
                date_to = date_to;
                to_local = to_local;
              })
              (order_by_name
                (select (reported organization_id department_id cardholder_id) db.cardholders)))
      ]
