-- ===== src/Attendance/Days.antt =====
-- The loop over the days of a report: it ends, and has a row for every day of the range.
use mathlib.Core.Path.{ap₂}
use cerradura_magnetica.Prelude.{
  ℕ, zero, suc, ◌+◌, ◌-◌, ◌*◌, ◌≤◌, ◌<◌, ◌≡◌, refl, sym, ap, ◌∙◌, true, false, String, List, [],
  ◌∷◌, ◌++◌, map, Option, some, arith, ok, leb, ltb, length, length-append, length-map, select,
}
use cerradura_magnetica.Models.Attendance.{Employee, Database, DayRow}
use cerradura_magnetica.Attendance.{
  Report, max_range_days, each_day, reported, day_row, holder_rows, compute_attendance,
}

abbrev pub range : ℕ → ℕ → List ℕ
range day zero = []
range day (suc n) = day ∷ range (suc day) n

length-range : (day n : ℕ) → length (range day n) ≡ n
length-range day zero = refl
length-range day (suc n) = ap suc (length-range (suc day) n)

-- With fuel for the days that are left, and however much more, the loop gives their rows in order.
each_day-range :
    {A : Type 0} (row : ℕ → A) (date_to n extra day : ℕ)
    → day + n ≡ suc date_to
    → each_day row date_to (n + extra) day ≡ map row (range day n)
unfolding each_day
each_day-range row date_to zero zero day h = refl
each_day-range row date_to zero (suc extra) day h =
    let over : leb day date_to ≡ false = ground (arith, h) in
    let more : zero + suc extra ≡ suc extra = omega arith in rw more (rw over refl)
each_day-range row date_to (suc n) extra day h =
    let more : suc n + extra ≡ suc (n + extra) = omega arith in
    let inside : leb day date_to ≡ true = ground (arith, h) in
    rw more (
      rw inside
        (ap (λ t. row day ∷ t) (each_day-range row date_to n extra (suc day) (omega (arith, h)))))

-- One row for each holder and day, holders in their order and days in theirs.
abbrev pub all_rows : Database → Report → List Employee → List DayRow
all_rows db r [] = []
all_rows db r (h ∷ hs) =
    map (day_row db r h) (range r.date_from (suc (r.date_to - r.date_from))) ++ all_rows db r hs

holder_rows-all_rows :
    (db : Database) (r : Report) (hs : List Employee)
    → r.date_from ≤ r.date_to
    → holder_rows db r hs ≡ all_rows db r hs
unfolding holder_rows
holder_rows-all_rows db r [] ordered = refl
holder_rows-all_rows db r (h ∷ hs) ordered =
    let days = suc (r.date_to - r.date_from) in
    let exact : days + 0 ≡ days = omega arith in
    let loop : each_day (day_row db r h) r.date_to (days + 0) r.date_from
        ≡ map (day_row db r h) (range r.date_from days) =
      each_day-range (day_row db r h) r.date_to days 0 r.date_from (omega (arith, ordered)) in
    ap₂ ◌++◌ (ap (λ n. each_day (day_row db r h) r.date_to n r.date_from) (sym exact) ∙ loop)
      (holder_rows-all_rows db r hs ordered)

length-all_rows :
    (db : Database) (r : Report) (hs : List Employee)
    → suc (r.date_to - r.date_from) ≤ max_range_days
    → length (all_rows db r hs) ≤ max_range_days * length hs
length-all_rows db r [] small = omega arith
length-all_rows db r (h ∷ hs) small =
    let days = suc (r.date_to - r.date_from) in
    let rest = length-all_rows db r hs small in
    let own : length (map (day_row db r h) (range r.date_from days)) ≡ days =
      length-map (range r.date_from days) (day_row db r h) ∙ length-range r.date_from days in
    rw length-append (omega (arith, own, rest, small))

module _ (zone : String → Option (ℕ → ℕ)) (order_by_name : List Employee → List Employee) where
  -- A report over an ordered range of at most 92 days, in a known time zone, is made: for each active
  -- holder who was asked for, in the database's order, it has a row for every day of the range, from the
  -- first to the last, and no other. That is at most 92 rows a holder.
  pub report_complete :
      (db : Database) (org from to : ℕ) (department holder : Option ℕ) (timezone : String)
      (to_local : ℕ → ℕ)
      → from ≤ to
      → to < from + 92
      → zone timezone ≡ some to_local
      → let r : Report = record {
        organization_id = org;
        date_from = from;
        date_to = to;
        to_local = to_local;
      } in
        let holders = order_by_name (select (reported org department holder) db.cardholders) in
        (compute_attendance zone order_by_name db org from to department holder timezone
          ≡ ok (all_rows db r holders))
        × (length (all_rows db r holders) ≤ 92 * length holders)
  unfolding compute_attendance
  report_complete db org from to department holder timezone to_local ordered small known =
      let r : Report = record {
        organization_id = org;
        date_from = from;
        date_to = to;
        to_local = to_local;
      } in
      let holders = order_by_name (select (reported org department holder) db.cardholders) in
      let forward : ltb to from ≡ false = ground arith in
      let short : ltb max_range_days ((to - from) + 1) ≡ false = ground arith in
      (
        rw (forward, short, known) (ap ok (holder_rows-all_rows db r holders ordered)),
        length-all_rows db r holders (omega (arith, ordered, small)),
      )
