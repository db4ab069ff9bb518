-- ===== src/Prelude/Rows.antt =====
-- The rows of a table that are selected or found, and what holds of every one.
use mathlib.Core.Path.{◌≡◌, refl, ap, subst, ◌∙◌}
use Prim.Native.Nat.{◌≤◌}
use mathlib.Core.Bool.{Bool, true, false}
use mathlib.Core.Logic.{inl, inr}
use mathlib.Core.List.{List, [], ◌∷◌, ◌++◌, map}
use mathlib.Core.Option.{some}
use native.Mathlib.Omega.{arith}
use cerradura_magnetica.Prelude.Tests.{Bool-cases}
use cerradura_magnetica.Prelude.Table.{select, find_row, row_count, exists_row, All}
use cerradura_magnetica.Prelude.Updates.{row_count_mono}

pub select-append {ℓ} :
    {A : Type ℓ} (p : A → Bool) (xs ys : List A) → select p (xs ++ ys) ≡ select p xs ++ select p ys
select-append p [] ys = refl
select-append p (x ∷ xs) ys = elim (Bool-cases (p x)) [
  | inl hit ↦ rw hit (ap (λ t. x ∷ t) (select-append p xs ys))
  | inr miss ↦ rw miss (select-append p xs ys)
]

pub All-select {ℓ κ} :
    {A : Type ℓ} (P : A → Type κ) (p : A → Bool) (xs : List A) → All P xs → All P (select p xs)
All-select P p [] h = h
All-select P p (x ∷ xs) h = elim (Bool-cases (p x)) [
  | inl hit ↦ rw hit (h.0, All-select P p xs h.1)
  | inr miss ↦ rw miss (All-select P p xs h.1)
]

module _ {ℓ κ} {A : Type ℓ} where
  pub All-imp {μ} :
      (P : A → Type κ) (Q : A → Type μ) (xs : List A) → ((x : A) → P x → Q x) → All P xs → All Q xs
  All-imp P Q [] f h = tt
  All-imp P Q (x ∷ xs) f h = (f x h.0, All-imp P Q xs f h.1)

  -- What holds of every row holds of the one that is found.
  pub All-find_row :
      (P : A → Type κ) (p : A → Bool) (xs : List A) {a : A}
      → All P xs
      → find_row p xs ≡ some a
      → P a
  All-find_row P p [] h e = cc
  All-find_row P p (x ∷ xs) {a} h e = elim (Bool-cases (p x)) [
    | inl hit ↦
        let found : some x ≡ some a = rw hit at e in let same : x ≡ a = cc in subst P same h.0
    | inr miss ↦ All-find_row P p xs h.1 (rw miss at e)
  ]

module _ {ℓ} {A : Type ℓ} where
  -- Every row that a SELECT gives meets its test.
  pub select-All : (p : A → Bool) (xs : List A) → All (λ x. p x ≡ true) (select p xs)
  select-All p [] = tt
  select-All p (x ∷ xs) = elim (Bool-cases (p x)) [
    | inl hit ↦ rw hit (hit, select-All p xs)
    | inr miss ↦ rw miss (select-All p xs)
  ]

  pub find_row-exists_row :
      (p q : A → Bool) (xs : List A) {a : A}
      → find_row p xs ≡ some a
      → q a ≡ true
      → exists_row q xs ≡ true
  find_row-exists_row p q [] h e = cc
  find_row-exists_row p q (x ∷ xs) {a} h e = elim (Bool-cases (p x)) [
    | inl hit ↦
        let first : some x ≡ some a = rw hit at h in
        let same : x ≡ a = cc in let found : q x ≡ true = ap q same ∙ e in rw found refl
    | inr miss ↦ ground (arith, find_row-exists_row p q xs (rw miss at h) e)
  ]

-- A SELECT by what the test implies keeps a row that meets it.
pub exists_row-select_imp {ℓ} :
    {A : Type ℓ} (p q : A → Bool) (xs : List A)
    → ((x : A) → p x ≡ true → q x ≡ true)
    → exists_row p xs ≡ true
    → exists_row p (select q xs) ≡ true
exists_row-select_imp p q [] imp h = cc
exists_row-select_imp p q (x ∷ xs) imp h = elim (Bool-cases (p x)) [
  | inl hit ↦ let stays = imp x hit in rw stays (rw hit refl)
  | inr miss ↦
      let later = exists_row-select_imp p q xs imp (rw miss at h) in
      elim (Bool-cases (q x)) [ inl stays ↦ rw stays (rw miss later) | inr goes ↦ rw goes later ]
]

pub All-map_intro {ℓ κ μ ν} :
    {A : Type ℓ} {B : Type κ} (P : A → Type μ) (R : B → Type ν) (f : A → B) (xs : List A)
    → ((x : A) → P x → R (f x))
    → All P xs
    → All R (map f xs)
All-map_intro P R f [] h a = tt
All-map_intro P R f (x ∷ xs) h a = (h x a.0, All-map_intro P R f xs h a.1)

module _ {ℓ} {A : Type ℓ} where
  pub All_zip {κ μ} :
      (P : A → Type κ) (Q : A → Type μ) (xs : List A)
      → All P xs
      → All Q xs
      → All (λ x. P x × Q x) xs
  All_zip P Q [] h k = tt
  All_zip P Q (x ∷ xs) h k = ((h.0, k.0), All_zip P Q xs h.1 k.1)

  -- No row of a count of nothing meets the test.
  pub row_count-none : (p : A → Bool) (xs : List A) → row_count p xs ≡ 0 → All (λ x. p x ≡ false) xs
  row_count-none p [] h = tt
  row_count-none p (x ∷ xs) h = elim (Bool-cases (p x)) [
    | inl hit ↦ absurd (ground (arith, hit, h))
    | inr miss ↦ (miss, row_count-none p xs (rw miss at h))
  ]

  -- Where a test is met once at most, the row that is found is the only one.
  pub find_row-only :
      (p : A → Bool) (xs : List A) {a : A}
      → row_count p xs ≤ 1
      → find_row p xs ≡ some a
      → All (λ x. p x ≡ true → x ≡ a) xs
  find_row-only p [] n h = tt
  find_row-only p (x ∷ xs) {a} n h = elim (Bool-cases (p x)) [
    | inl hit ↦
        let first : some x ≡ some a = rw hit at h in
        let same : x ≡ a = cc in
        let rest : row_count p xs ≡ 0 = ground (arith, hit, n) in
        (
          λ _. same,
          All-imp (λ y. p y ≡ false) (λ y. p y ≡ true → y ≡ a) xs (λ y off on. cc)
              (row_count-none p xs rest),
        )
    | inr miss ↦
        let fewer : row_count p xs ≤ 1 = rw miss at n in
        (λ on. cc, find_row-only p xs fewer (rw miss at h))
  ]

  -- Where a test is met once at most, and one that implies it is met, both are met by the same row.
  pub row_count-only :
      (p q : A → Bool) (xs : List A)
      → ((x : A) → q x ≡ true → p x ≡ true)
      → row_count p xs ≤ 1
      → row_count q xs ≡ 1
      → All (λ x. p x ≡ true → q x ≡ true) xs
  row_count-only p q [] imp n h = tt
  row_count-only p q (x ∷ xs) imp n h =
      let fewer = row_count_mono q p xs imp in
      elim (Bool-cases (q x)) [
        | inl hit ↦
            let wide = imp x hit in
            let rest : row_count p xs ≡ 0 = ground (arith, wide, n) in
            (
              λ _. hit,
              All-imp (λ y. p y ≡ false) (λ y. p y ≡ true → q y ≡ true) xs (λ y off on. cc)
                  (row_count-none p xs rest),
            )
        | inr miss ↦
            let later : row_count q xs ≡ 1 = rw miss at h in
            elim (Bool-cases (p x)) [
              | inl wide ↦ absurd (ground (arith, wide, n, fewer, later))
              | inr narrow ↦
                  let less : row_count p xs ≤ 1 = rw narrow at n in
                  (λ on. cc, row_count-only p q xs imp less later)
            ]
      ]

  -- A SELECT has no more rows that meet a test.
  pub row_count-select_le :
      (p q : A → Bool) (xs : List A) → row_count p (select q xs) ≤ row_count p xs
  row_count-select_le p q [] = omega arith
  row_count-select_le p q (x ∷ xs) =
      let rest = row_count-select_le p q xs in
      elim (Bool-cases (q x)) [
        | inr goes ↦ rw goes (ground (arith, rest))
        | inl stays ↦ rw stays (ground (arith, rest))
      ]

  -- A count that is not nothing has a row, of which all holds that holds of every one.
  pub row_count-some {κ} :
      (p : A → Bool) (P : A → Type κ) (xs : List A)
      → row_count p xs ≡ 1
      → All P xs
      → (x : A) × (p x ≡ true) × P x
  row_count-some p P [] n h = absurd (omega (arith, n))
  row_count-some p P (x ∷ xs) n h = elim (Bool-cases (p x)) [
    | inl hit ↦ (x, hit, h.0)
    | inr miss ↦ row_count-some p P xs (rw miss at n) h.1
  ]
