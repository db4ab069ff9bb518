-- ===== src/Attendance/Sorting.antt =====
-- The first and the last punch of a day, by sorting.
use mathlib.Core.Path.{subst}
use cerradura_magnetica.Prelude.{
  ℕ, suc, ◌≤◌, ◌≡◌, refl, sym, ap, ◌∙◌, inl, inr, Bool, true, ◌||◌, List, [], ◌∷◌, some, arith, leb,
  ◌==◌, Bool-cases, length, exists_row, All,
}
use cerradura_magnetica.Attendance.{insert, sorted, first_of, last_of, last_of_many}

All-insert : (P : ℕ → Type 0) (t : ℕ) (ts : List ℕ) → P t → All P ts → All P (insert t ts)
All-insert P t [] here all = (here, tt)
All-insert P t (u ∷ us) here all = elim (Bool-cases (leb t u)) [
  | inl least ↦ rw least (here, all)
  | inr later ↦ rw later (all.0, All-insert P t us here all.1)
]

All-sorted : (P : ℕ → Type 0) (ts : List ℕ) → All P ts → All P (sorted ts)
All-sorted P [] all = tt
All-sorted P (t ∷ ts) all = All-insert P t (sorted ts) all.0 (All-sorted P ts all.1)

All-of-insert : (P : ℕ → Type 0) (t : ℕ) (ts : List ℕ) → All P (insert t ts) → P t × All P ts
All-of-insert P t [] all = all
All-of-insert P t (u ∷ us) all = elim (Bool-cases (leb t u)) [
  | inl least ↦ rw least at all
  | inr later ↦
      let split : P u × All P (insert t us) = rw later at all in
      let (here, rest) = All-of-insert P t us split.1 in (here, (split.0, rest))
]

-- What holds of every sorted punch holds of every punch.
All-of-sorted : (P : ℕ → Type 0) (ts : List ℕ) → All P (sorted ts) → All P ts
All-of-sorted P [] all = tt
All-of-sorted P (t ∷ ts) all =
    let (here, rest) = All-of-insert P t (sorted ts) all in (here, All-of-sorted P ts rest)

exists_row-insert :
    (p : ℕ → Bool) (t : ℕ) (ts : List ℕ) → exists_row p (insert t ts) ≡ (p t || exists_row p ts)
exists_row-insert p t [] = refl
exists_row-insert p t (u ∷ us) = ground (arith, exists_row-insert p t us)

pub exists_row-sorted : (p : ℕ → Bool) (ts : List ℕ) → exists_row p (sorted ts) ≡ exists_row p ts
exists_row-sorted p [] = refl
exists_row-sorted p (t ∷ ts) =
    exists_row-insert p t (sorted ts) ∙ ap (λ b. p t || b) (exists_row-sorted p ts)

length-insert : (t : ℕ) (ts : List ℕ) → length (insert t ts) ≡ suc (length ts)
length-insert t [] = refl
length-insert t (u ∷ us) = ground (arith, length-insert t us)

pub length-sorted : (ts : List ℕ) → length (sorted ts) ≡ length ts
length-sorted [] = refl
length-sorted (t ∷ ts) = length-insert t (sorted ts) ∙ ap suc (length-sorted ts)

abbrev pub IsSorted : List ℕ → Type 0
IsSorted [] = Unit
IsSorted (t ∷ ts) = All (λ u. t ≤ u) ts × IsSorted ts

All-trans : (t u : ℕ) (us : List ℕ) → t ≤ u → All (λ x. u ≤ x) us → All (λ x. t ≤ x) us
All-trans t u [] h all = tt
All-trans t u (x ∷ us) h all = (omega (arith, all.0), All-trans t u us h all.1)

insert-IsSorted : (t : ℕ) (ts : List ℕ) → IsSorted ts → IsSorted (insert t ts)
insert-IsSorted t [] up = (tt, tt)
insert-IsSorted t (u ∷ us) up = elim (Bool-cases (leb t u)) [
  | inl least ↦ let le : t ≤ u = ground arith in rw least ((le, All-trans t u us le up.0), up)
  | inr later ↦
      let le : u ≤ t = ground arith in
      rw later (All-insert (λ x. u ≤ x) t us le up.0, insert-IsSorted t us up.1)
]

sorted-IsSorted : (ts : List ℕ) → IsSorted (sorted ts)
sorted-IsSorted [] = tt
sorted-IsSorted (t ∷ ts) = insert-IsSorted t (sorted ts) (sorted-IsSorted ts)

last_of-greatest : (t : ℕ) (ts : List ℕ) → IsSorted (t ∷ ts) → All (λ u. u ≤ last_of t ts) (t ∷ ts)
last_of-greatest t [] up = (omega arith, tt)
last_of-greatest t (u ∷ us) up =
    let rest = last_of-greatest u us up.1 in (omega (arith, up.0.0, rest.0), rest)

last_of-IsMember : (t : ℕ) (ts : List ℕ) → exists_row (λ u. u == last_of t ts) (t ∷ ts) ≡ true
last_of-IsMember t [] = ground arith
last_of-IsMember t (u ∷ us) = ground (arith, last_of-IsMember u us)

abbrev pub IsMember : ℕ → List ℕ → Type 0
IsMember t ts = exists_row (λ u. u == t) ts ≡ true

first_of-least :
    (us : List ℕ) {t : ℕ} → IsSorted us → first_of us ≡ some t → IsMember t us × All (λ u. t ≤ u) us
first_of-least [] up h = cc
first_of-least (u ∷ us) {t} up h =
    let same : u ≡ t = cc in
    let here : IsMember u (u ∷ us) = ground arith in
    let least : All (λ x. u ≤ x) (u ∷ us) = (omega arith, up.0) in
    subst (λ x. IsMember x (u ∷ us) × All (λ y. x ≤ y) (u ∷ us)) same (here, least)

last_of_many-greatest :
    (us : List ℕ) {t : ℕ}
    → IsSorted us
    → last_of_many us ≡ some t
    → (2 ≤ length us) × IsMember t us × All (λ u. u ≤ t) us
last_of_many-greatest [] up h = cc
last_of_many-greatest (u ∷ []) up h = cc
last_of_many-greatest (u ∷ v ∷ us) {t} up h =
    let same : last_of v us ≡ t = cc in
    subst (λ x. (2 ≤ length (u ∷ v ∷ us)) × IsMember x (u ∷ v ∷ us) × All (λ y. y ≤ x) (u ∷ v ∷ us))
      same (omega arith, last_of-IsMember u (v ∷ us), last_of-greatest u (v ∷ us) up)

-- The punch that sorting brings first is one of the day's, and none is before it.
pub first_punch :
    (ts : List ℕ) {t : ℕ} → first_of (sorted ts) ≡ some t → IsMember t ts × All (λ u. t ≤ u) ts
first_punch ts {t} h =
    let (here, least) = first_of-least (sorted ts) (sorted-IsSorted ts) h in
    (sym (exists_row-sorted (λ u. u == t) ts) ∙ here, All-of-sorted (λ u. t ≤ u) ts least)

-- The punch that sorting brings last, of two or more, is one of the day's, and none is after it.
pub last_punch :
    (ts : List ℕ) {t : ℕ}
    → last_of_many (sorted ts) ≡ some t
    → (2 ≤ length ts) × IsMember t ts × All (λ u. u ≤ t) ts
last_punch ts {t} h =
    let (many, here, greatest) = last_of_many-greatest (sorted ts) (sorted-IsSorted ts) h in
    (
      omega (arith, many, length-sorted ts),
      sym (exists_row-sorted (λ u. u == t) ts) ∙ here,
      All-of-sorted (λ u. u ≤ t) ts greatest,
    )
