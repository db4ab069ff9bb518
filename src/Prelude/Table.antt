-- ===== src/Prelude/Table.antt =====
-- A database table as the list of its rows, in insertion order: SELECT, UPDATE and their row counts.
use Prim.Native.Nat.{ℕ, suc, ◌+◌}
use mathlib.Core.Path.{◌≡◌, refl, ◌∙◌}
use mathlib.Core.Bool.{Bool, true, false, ◌&&◌, ◌||◌}
use mathlib.Core.Logic.{inl, inr}
use mathlib.Core.List.{List, [], ◌∷◌, ◌++◌}
use mathlib.Core.Option.{Option, none, some}
use native.Mathlib.Omega.{arith}
use cerradura_magnetica.Prelude.Tests.{if◌then◌else◌, Bool-cases, Option-cases}

module _ {ℓ} {A : Type ℓ} where
  -- SELECT ... WHERE p, in table order
  abbrev pub select : (A → Bool) → List A → List A
  select p [] = []
  select p (x ∷ xs) = let rest = select p xs in if p x then x ∷ rest else rest

  -- the first row that matches: `db.get` and `scalar_one_or_none` over a unique key
  abbrev pub find_row : (A → Bool) → List A → Option A
  find_row p [] = none
  find_row p (x ∷ xs) = let rest = find_row p xs in if p x then some x else rest

  -- UPDATE ... WHERE p
  abbrev pub update_rows : (A → Bool) → (A → A) → List A → List A
  update_rows p f [] = []
  update_rows p f (x ∷ xs) = (if p x then f x else x) ∷ update_rows p f xs

  -- an UPDATE of one row by its primary key: the row that `find_row` gives
  abbrev pub update_row : (A → Bool) → (A → A) → List A → List A
  update_row p f [] = []
  update_row p f (x ∷ xs) = let rest = update_row p f xs in if p x then f x ∷ xs else x ∷ rest

  -- the `rowcount` of an UPDATE
  abbrev pub row_count : (A → Bool) → List A → ℕ
  row_count p [] = 0
  row_count p (x ∷ xs) = let rest = row_count p xs in if p x then suc rest else rest

  -- whether some row matches
  abbrev pub exists_row : (A → Bool) → List A → Bool
  exists_row p [] = false
  exists_row p (x ∷ xs) = p x || exists_row p xs

  -- the last row that matches: what a dictionary holds that was filled row by row
  abbrev pub last_row : (A → Bool) → List A → Option A
  last_row p [] = none
  last_row p (x ∷ xs) = elim (last_row p xs) [
    | some y ↦ some y
    | none ↦ if p x then some x else none
  ]

  -- every row meets `P`
  abbrev pub All {κ} : (A → Type κ) → List A → Type κ
  All P [] = Unit
  All P (x ∷ xs) = P x × All P xs

module _ {ℓ} {A : Type ℓ} (p : A → Bool) where
  pub row_count-append : (xs ys : List A) → row_count p (xs ++ ys) ≡ row_count p xs + row_count p ys
  row_count-append [] ys = omega arith
  row_count-append (x ∷ xs) ys = ground (arith, row_count-append xs ys)

  pub row_count-exists_row : (xs : List A) → exists_row p xs ≡ false → row_count p xs ≡ 0
  row_count-exists_row [] h = refl
  row_count-exists_row (x ∷ xs) h = ground (arith, row_count-exists_row xs)

  pub exists_row-append_left :
      (xs ys : List A) → exists_row p xs ≡ true → exists_row p (xs ++ ys) ≡ true
  exists_row-append_left [] ys h = cc
  exists_row-append_left (x ∷ xs) ys h = ground (arith, exists_row-append_left xs ys)

  pub exists_row-append_last :
      (xs : List A) (y : A) → p y ≡ true → exists_row p (xs ++ y ∷ []) ≡ true
  exists_row-append_last [] y h = rw h
  exists_row-append_last (x ∷ xs) y h = ground (arith, exists_row-append_last xs y h)

  -- What `last_row` finds is a row of the table.
  pub last_row-exists_row :
      (r : A → Bool) (xs : List A) {a : A}
      → last_row p xs ≡ some a
      → r a ≡ true
      → exists_row r xs ≡ true
  last_row-exists_row r [] h e = cc
  last_row-exists_row r (x ∷ xs) {a} h e = elim (Option-cases (last_row p xs)) [
    | inr (y, later) ↦
        let here : some y ≡ _ = rw later at h in
        ground (arith, last_row-exists_row r xs (later ∙ here) e)
    | inl end ↦
        let here : (if p x then some x else none) ≡ _ = rw end at h in
        elim (Bool-cases (p x)) [
          | inl hit ↦
              let same : some x ≡ _ = rw hit at here in
              let equal : x ≡ a = cc in let found : r x ≡ true = rw equal e in ground (arith, found)
          | inr miss ↦ let nothing : none ≡ _ = rw miss at here in cc
        ]
  ]

  pub exists_row-select :
      (q : A → Bool) (xs : List A)
      → exists_row p (select q xs) ≡ true
      → exists_row (λ x. q x && p x) xs ≡ true
  exists_row-select q [] h = cc
  exists_row-select q (x ∷ xs) h = elim (Bool-cases (q x)) [
    | inl hit ↦ ground (arith, hit, exists_row-select q xs)
    | inr miss ↦ ground (arith, exists_row-select q xs (rw miss at h))
  ]

  -- A look-up that finds nothing is one over no matching row.
  pub row_count-find_row : (xs : List A) → find_row p xs ≡ none → row_count p xs ≡ 0
  row_count-find_row [] h = refl
  row_count-find_row (x ∷ xs) h = ground (arith, row_count-find_row xs)

  pub find_row-append :
      (xs : List A) (y : A) → find_row p xs ≡ none → p y ≡ true → find_row p (xs ++ y ∷ []) ≡ some y
  find_row-append [] y h e = rw e
  find_row-append (x ∷ xs) y h e = ground (arith, find_row-append xs y)

  pub find_row-holds : (xs : List A) {a : A} → find_row p xs ≡ some a → p a ≡ true
  find_row-holds [] h = cc
  find_row-holds (x ∷ xs) h = elim (Bool-cases (p x)) [
    | inl hit ↦ ground (arith, hit)
    | inr miss ↦ find_row-holds xs (rw miss at h)
  ]
