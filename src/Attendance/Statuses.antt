-- ===== src/Attendance/Statuses.antt =====
-- What the statuses of a day mean, said of the day's punches without sorting them.
use cerradura_magnetica.Prelude.{
  ℕ, ◌≤◌, ◌≡◌, refl, ◌∙◌, Bool, true, false, not, ◌&&◌, List, [], ◌∷◌, ◌++◌, Option, none, some,
  arith, leb, ltb, ◌==◌, if◌then◌else◌, holds, is_none, length, exists_row,
}
use cerradura_magnetica.Models.Attendance.{
  Employee, Shift, Leave, Status, rest_day, absent, present, late, early_leave, incomplete,
}
use cerradura_magnetica.Attendance.{
  sorted, first_of, last_of_many, is_workday, late_limit, leaves_early, when, worked, evaluate_day,
}
use cerradura_magnetica.Attendance.Punches.{
  every, is_nil, first_meets, last_meets, none_first, none_last,
}

abbrev pub is_present : Status → Bool
is_present present = true
is_present _ = false

abbrev pub is_absent : Status → Bool
is_absent absent = true
is_absent _ = false

abbrev pub is_late : Status → Bool
is_late late = true
is_late _ = false

abbrev pub is_early_leave : Status → Bool
is_early_leave early_leave = true
is_early_leave _ = false

abbrev pub is_incomplete : Status → Bool
is_incomplete incomplete = true
is_incomplete _ = false

-- Which statuses a day has.
pub record Marks : Type 0 where
  pub was_present : Bool
  pub was_absent : Bool
  pub was_late : Bool
  pub left_early : Bool
  pub was_incomplete : Bool

abbrev pub marks : List Status → Marks
marks statuses = record {
  was_present = exists_row is_present statuses;
  was_absent = exists_row is_absent statuses;
  was_late = exists_row is_late statuses;
  left_early = exists_row is_early_leave statuses;
  was_incomplete = exists_row is_incomplete statuses;
}

-- What a day comes to, by its punches in any order.
abbrev pub verdict : Option Shift → ℕ → List ℕ → Option Leave → Bool → Marks
verdict shift day punched absence off_day =
    let counted = not off_day && is_none absence in
    let expected = counted && is_workday shift day in
    record {
      was_present = counted && not (is_nil punched);
      was_absent = expected && is_nil punched;
      was_late =
          expected
          && holds shift (λ s. not (is_nil punched) && every (ltb (late_limit s day)) punched);
      left_early =
          expected
          && holds shift (λ s. not (leb (length punched) 1) && every (leaves_early s day) punched);
      was_incomplete = expected && length punched == 1;
    }

worked_marks :
    (a b c : Bool)
    → marks (present ∷ (when a late ++ when b early_leave ++ when c incomplete)) ≡ record {
      was_present = true;
      was_absent = false;
      was_late = a;
      left_early = b;
      was_incomplete = c;
    }
worked_marks true true true = refl
worked_marks true true false = refl
worked_marks true false true = refl
worked_marks true false false = refl
worked_marks false true true = refl
worked_marks false true false = refl
worked_marks false false true = refl
worked_marks false false false = refl

work_marks :
    (s : Shift) (day : ℕ) (ps : List ℕ)
    → marks (
        if is_none (first_of ps)
        then absent ∷ []
        else worked (some s) day (first_of ps) (last_of_many ps))
      ≡ record {
        was_present = not (is_none (first_of ps));
        was_absent = is_none (first_of ps);
        was_late = holds (first_of ps) (ltb (late_limit s day));
        left_early = holds (last_of_many ps) (leaves_early s day);
        was_incomplete = not (is_none (first_of ps)) && is_none (last_of_many ps);
      }
work_marks s day [] = refl
work_marks s day (t ∷ ts) =
    worked_marks (ltb (late_limit s day) t) (holds (last_of_many (t ∷ ts)) (leaves_early s day))
      (is_none (last_of_many (t ∷ ts)))

off_marks :
    (ps : List ℕ)
    → marks (if is_none (first_of ps) then rest_day ∷ [] else present ∷ []) ≡ record {
      was_present = not (is_none (first_of ps));
      was_absent = false;
      was_late = false;
      left_early = false;
      was_incomplete = false;
    }
off_marks [] = refl
off_marks (t ∷ ts) = refl

one_punch : (ts : List ℕ) → (not (is_nil ts) && leb (length ts) 1) ≡ (length ts == 1)
one_punch [] = refl
one_punch (t ∷ []) = refl
one_punch (t ∷ u ∷ ts) = ground arith

after_mono : (l t u : ℕ) → t ≤ u → ltb l t ≡ true → ltb l u ≡ true
after_mono l t u le h = ground arith

early_mono :
    (s : Shift) (day t u : ℕ) → u ≤ t → leaves_early s day t ≡ true → leaves_early s day u ≡ true
early_mono s day t u le h = ground arith

off_exact :
    (ts : List ℕ)
    → marks (if is_none (first_of (sorted ts)) then rest_day ∷ [] else present ∷ []) ≡ record {
      was_present = not (is_nil ts);
      was_absent = false;
      was_late = false;
      left_early = false;
      was_incomplete = false;
    }
off_exact ts = rw (off_marks (sorted ts), none_first ts) refl

work_exact :
    (s : Shift) (day : ℕ) (ts : List ℕ)
    → marks (
        if is_none (first_of (sorted ts))
        then absent ∷ []
        else worked (some s) day (first_of (sorted ts)) (last_of_many (sorted ts)))
      ≡ record {
        was_present = not (is_nil ts);
        was_absent = is_nil ts;
        was_late = not (is_nil ts) && every (ltb (late_limit s day)) ts;
        left_early = not (leb (length ts) 1) && every (leaves_early s day) ts;
        was_incomplete = length ts == 1;
      }
work_exact s day ts =
    work_marks s day (sorted ts)
    ∙ rw
        (
          first_meets (ltb (late_limit s day)) ts (after_mono (late_limit s day)),
          last_meets (leaves_early s day) ts (early_mono s day),
          none_first ts,
          none_last ts,
          one_punch ts,
        )
        refl

-- On a working day or off it, where no holiday and no leave stand before it.
by_shift_exact :
    (workday : Bool) (s : Shift) (day : ℕ) (ts : List ℕ)
    → let off = if is_none (first_of (sorted ts)) then rest_day ∷ [] else present ∷ [] in
      let work =
        if is_none (first_of (sorted ts))
        then absent ∷ []
        else worked (some s) day (first_of (sorted ts)) (last_of_many (sorted ts)) in
      marks (if workday then work else off) ≡ record {
        was_present = not (is_nil ts);
        was_absent = workday && is_nil ts;
        was_late = workday && (not (is_nil ts) && every (ltb (late_limit s day)) ts);
        left_early = workday && (not (leb (length ts) 1) && every (leaves_early s day) ts);
        was_incomplete = workday && length ts == 1;
      }
by_shift_exact true s day ts = work_exact s day ts
by_shift_exact false s day ts = off_exact ts

-- Off holidays and leaves, a day counts as present exactly if there is a punch. A holder who is also
-- expected by the shift that day is absent exactly if there is none, late exactly if every punch is after
-- the start and its tolerance, early to leave exactly if there are several and all are before the end
-- less its tolerance, and incomplete exactly if there is one. On holidays and leaves none of these is said.
pub statuses_exact :
    (holder : Employee) (shift : Option Shift) (day : ℕ) (punched : List ℕ) (absence : Option Leave)
    (off_day : Bool)
    → marks (evaluate_day holder shift day punched absence off_day).statuses
      ≡ verdict shift day punched absence off_day
unfolding evaluate_day
statuses_exact holder shift day punched absence true = refl
statuses_exact holder shift day punched (some lv) false = refl
statuses_exact holder none day punched none false = off_exact punched
statuses_exact holder (some s) day punched none false =
    by_shift_exact (is_workday (some s) day) s day punched
