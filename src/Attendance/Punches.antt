-- ===== src/Attendance/Punches.antt =====
-- The times of a day's row: the first and the last of its punches, whatever their order.
use cerradura_magnetica.Prelude.{
  ℕ, ◌≤◌, ◌≡◌, refl, sym, ap, ◌∙◌, inl, inr, Bool, true, false, not, ◌&&◌, List, [], ◌∷◌, Option,
  some, arith, leb, ◌==◌, Bool-cases, Option-cases, holds, is_none, length, All,
}
use cerradura_magnetica.Models.Attendance.{Employee, Shift, Leave}
use cerradura_magnetica.Attendance.{sorted, first_of, last_of_many, evaluate_day}
use cerradura_magnetica.Attendance.Sorting.{IsMember, first_punch, last_punch, length-sorted}

abbrev pub every : (ℕ → Bool) → List ℕ → Bool
every p [] = true
every p (t ∷ ts) = p t && every p ts

abbrev pub is_nil : List ℕ → Bool
is_nil [] = true
is_nil (t ∷ ts) = false

every-All : (p : ℕ → Bool) (ts : List ℕ) → All (λ t. p t ≡ true) ts → every p ts ≡ true
every-All p [] all = refl
every-All p (t ∷ ts) all = ground (arith, every-All p ts, all.0, all.1)

every-IsMember :
    (p : ℕ → Bool) (t : ℕ) (ts : List ℕ) → IsMember t ts → p t ≡ false → every p ts ≡ false
every-IsMember p t [] here no' = cc
every-IsMember p t (u ∷ us) here no' = elim (Bool-cases (u == t)) [
  | inl own ↦
      let same : u ≡ t = ground arith in let fails : p u ≡ false = ap p same ∙ no' in rw fails refl
  | inr other ↦ ground (arith, every-IsMember p t us, no')
]

All-map : (P Q : ℕ → Type 0) (ts : List ℕ) → ((t : ℕ) → P t → Q t) → All P ts → All Q ts
All-map P Q [] f all = tt
All-map P Q (t ∷ ts) f all = (f t all.0, All-map P Q ts f all.1)

first_of-length : (us : List ℕ) → is_none (first_of us) ≡ (length us == 0)
first_of-length [] = refl
first_of-length (u ∷ us) = ground arith

is_nil-length : (us : List ℕ) → is_nil us ≡ (length us == 0)
is_nil-length [] = refl
is_nil-length (u ∷ us) = ground arith

last_of_many-length : (us : List ℕ) → is_none (last_of_many us) ≡ leb (length us) 1
last_of_many-length [] = refl
last_of_many-length (u ∷ []) = refl
last_of_many-length (u ∷ v ∷ us) = ground arith

pub none_first : (ts : List ℕ) → is_none (first_of (sorted ts)) ≡ is_nil ts
none_first ts =
    first_of-length (sorted ts) ∙ ap (λ n. n == 0) (length-sorted ts) ∙ sym (is_nil-length ts)

pub none_last : (ts : List ℕ) → is_none (last_of_many (sorted ts)) ≡ leb (length ts) 1
none_last ts = last_of_many-length (sorted ts) ∙ ap (λ n. leb n 1) (length-sorted ts)

-- The punch `t` is the one that a test is the hardest on: if it meets the test they all do.
hardest :
    (p : ℕ → Bool) (t : ℕ) (ts : List ℕ)
    → IsMember t ts
    → All (λ u. p t ≡ true → p u ≡ true) ts
    → p t ≡ every p ts
hardest p t ts here others = elim (Bool-cases (p t)) [
  | inl meets ↦
      meets
      ∙ sym (
          every-All p ts
            (All-map (λ u. p t ≡ true → p u ≡ true) (λ u. p u ≡ true) ts (λ u f. f meets) others))
  | inr fails ↦ fails ∙ sym (every-IsMember p t ts here fails)
]

-- A test that holds of every later time, once it holds, is met by all punches if the first one meets it.
pub first_meets :
    (p : ℕ → Bool) (ts : List ℕ)
    → ((t u : ℕ) → t ≤ u → p t ≡ true → p u ≡ true)
    → holds (first_of (sorted ts)) p ≡ (not (is_nil ts) && every p ts)
first_meets p ts mono = elim (Option-cases (first_of (sorted ts))) [
  | inl nothing ↦
      let empty : is_nil ts ≡ true = sym (none_first ts) ∙ ap is_none nothing in
      ap (λ o. holds o p) nothing ∙ ap (λ b. not b && every p ts) (sym empty)
  | inr (t, first) ↦
      let some_punch : is_nil ts ≡ false = sym (none_first ts) ∙ ap is_none first in
      let (here, least) = first_punch ts first in
      ap (λ o. holds o p) first
      ∙ hardest p t ts here
          (All-map (λ u. t ≤ u) (λ u. p t ≡ true → p u ≡ true) ts (λ u. mono t u) least)
      ∙ ap (λ b. not b && every p ts) (sym some_punch)
]

-- And one that holds of every earlier time, if the last of several meets it.
pub last_meets :
    (p : ℕ → Bool) (ts : List ℕ)
    → ((t u : ℕ) → u ≤ t → p t ≡ true → p u ≡ true)
    → holds (last_of_many (sorted ts)) p ≡ (not (leb (length ts) 1) && every p ts)
last_meets p ts mono = elim (Option-cases (last_of_many (sorted ts))) [
  | inl nothing ↦
      let few : leb (length ts) 1 ≡ true = sym (none_last ts) ∙ ap is_none nothing in
      ap (λ o. holds o p) nothing ∙ ap (λ b. not b && every p ts) (sym few)
  | inr (t, last) ↦
      let many : leb (length ts) 1 ≡ false = sym (none_last ts) ∙ ap is_none last in
      let (_, here, greatest) = last_punch ts last in
      ap (λ o. holds o p) last
      ∙ hardest p t ts here
          (All-map (λ u. u ≤ t) (λ u. p t ≡ true → p u ≡ true) ts (λ u. mono t u) greatest)
      ∙ ap (λ b. not b && every p ts) (sym many)
]

-- The check-in of a day is the earliest of its punches, in whatever order they came, and is there if there
-- is a punch. The check-out is the latest of them, and is there if there are at least two.
pub check_times :
    (holder : Employee) (shift : Option Shift) (day : ℕ) (punched : List ℕ) (absence : Option Leave)
    (off_day : Bool)
    → let row = evaluate_day holder shift day punched absence off_day in
      ((t : ℕ) → row.check_in ≡ some t → IsMember t punched × All (λ u. t ≤ u) punched)
      × ((t : ℕ)
          → row.check_out ≡ some t
          → (2 ≤ length punched) × IsMember t punched × All (λ u. u ≤ t) punched)
      × (is_none row.check_in ≡ is_nil punched)
      × (is_none row.check_out ≡ leb (length punched) 1)
unfolding evaluate_day
check_times holder shift day punched absence off_day =
    (λ t. first_punch punched, λ t. last_punch punched, none_first punched, none_last punched)
