-- ===== src/Users/Keys.antt =====
-- Tables with at most one row for each key: what writing and deleting the row that was found does to the
-- rows under another test.
use cerradura_magnetica.Prelude.{
  ℕ, suc, ◌≤◌, ◌≡◌, refl, ap, Bool, false, not, List, [], ◌∷◌, ◌++◌, some, none, arith, ◌==◌,
  ==_iff, Bool-cases, inl, inr, select, find_row, update_rows, row_count, row_count-append,
  row_count-find_row,
}

module _ {ℓ} {A : Type ℓ} where
  update_rows-untouched :
      (q : A → Bool) (f : A → A) (xs : List A) → row_count q xs ≡ 0 → update_rows q f xs ≡ xs
  update_rows-untouched q f [] h = refl
  update_rows-untouched q f (x ∷ xs) h = elim (Bool-cases (q x)) [
    | inl hit ↦ let some_row : suc (row_count q xs) ≡ 0 = rw hit at h in cc
    | inr miss ↦ rw (miss, update_rows-untouched q f xs (rw miss at h)) refl
  ]

  select-untouched :
      (q : A → Bool) (xs : List A) → row_count q xs ≡ 0 → select (λ x. not (q x)) xs ≡ xs
  select-untouched q [] h = refl
  select-untouched q (x ∷ xs) h = elim (Bool-cases (q x)) [
    | inl hit ↦ let some_row : suc (row_count q xs) ≡ 0 = rw hit at h in cc
    | inr miss ↦ rw (miss, select-untouched q xs (rw miss at h)) refl
  ]

  row_count-select : (p q : A → Bool) (xs : List A) → row_count p (select q xs) ≤ row_count p xs
  row_count-select p q [] = omega arith
  row_count-select p q (x ∷ xs) = ground (arith, row_count-select p q xs)

  module _ (p q : A → Bool) (target : A) (out : p target ≡ false) where
    -- The one row under `q` is not under `p`: neither is what it becomes, and the rows under `p` stay.
    pub select-replace :
        (b : A) (xs : List A)
        → p b ≡ false
        → row_count q xs ≤ 1
        → find_row q xs ≡ some target
        → select p (update_rows q (λ _. b) xs) ≡ select p xs
    select-replace b [] off key found = cc
    select-replace b (x ∷ xs) off key found = elim (Bool-cases (q x)) [
      | inl hit ↦
          let first : some x ≡ some target = rw hit at found in
          let same : x ≡ target = cc in
          let outside : p x ≡ false = rw same out in
          let bound : suc (row_count q xs) ≤ 1 = rw hit at key in
          let rest = update_rows-untouched q (λ _. b) xs (omega arith) in
          rw (hit, rest, off, outside) refl
      | inr miss ↦
          let rest = select-replace b xs off (rw miss at key) (rw miss at found) in
          rw (miss, rest) refl
    ]

    pub select-delete :
        (xs : List A)
        → row_count q xs ≤ 1
        → find_row q xs ≡ some target
        → select p (select (λ x. not (q x)) xs) ≡ select p xs
    select-delete [] key found = cc
    select-delete (x ∷ xs) key found = elim (Bool-cases (q x)) [
      | inl hit ↦
          let first : some x ≡ some target = rw hit at found in
          let same : x ≡ target = cc in
          let outside : p x ≡ false = rw same out in
          let bound : suc (row_count q xs) ≤ 1 = rw hit at key in
          let rest = select-untouched q xs (omega arith) in rw (hit, rest, outside) refl
      | inr miss ↦
          let rest = select-delete xs (rw miss at key) (rw miss at found) in
          rw miss (elim (Bool-cases (p x)) [
            | inl inside ↦ rw inside (ap (λ t. x ∷ t) rest)
            | inr outside ↦ rw outside rest
          ])
    ]

  module _ (key : A → ℕ) where
    -- At most one row for each key.
    abbrev pub IsKeyed : List A → Type 0
    IsKeyed xs = (k : ℕ) → row_count (λ x. key x == k) xs ≤ 1

    row_count-rewrite :
        (j k : ℕ) (b : A) (xs : List A)
        → key b ≡ j
        → row_count (λ x. key x == k) (update_rows (λ x. key x == j) (λ _. b) xs)
          ≡ row_count (λ x. key x == k) xs
    row_count-rewrite j k b [] e = refl
    row_count-rewrite j k b (x ∷ xs) e = elim (Bool-cases (key x == j)) [
      | inl hit ↦
          let own : key x ≡ j = (==_iff (key x) j).0 hit in
          rw (hit, e, own, row_count-rewrite j k b xs e) refl
      | inr miss ↦ rw (miss, row_count-rewrite j k b xs e) refl
    ]

    pub update_rows-IsKeyed :
        (j : ℕ) (b : A) (xs : List A)
        → key b ≡ j
        → IsKeyed xs
        → IsKeyed (update_rows (λ x. key x == j) (λ _. b) xs)
    update_rows-IsKeyed j b xs e h k = rw (row_count-rewrite j k b xs e) (h k)

    pub select-IsKeyed : (q : A → Bool) (xs : List A) → IsKeyed xs → IsKeyed (select q xs)
    select-IsKeyed q xs h k =
        let fewer = row_count-select (λ x. key x == k) q xs in let bound = h k in omega arith

    pub append-IsKeyed :
        (b : A) (xs : List A)
        → find_row (λ x. key x == key b) xs ≡ none
        → IsKeyed xs
        → IsKeyed (xs ++ b ∷ [])
    append-IsKeyed b xs fresh h k =
        let empty = row_count-find_row (λ x. key x == key b) xs fresh in
        let bound = h k in
        rw (row_count-append (λ x. key x == k) xs (b ∷ [])) (elim (Bool-cases (key b == k)) [
          | inl own ↦
              let same : key b ≡ k = (==_iff (key b) k).0 own in
              let none_there : row_count (λ x. key x == k) xs ≡ 0 = rw same at empty in
              rw (own, none_there) (omega arith)
          | inr other ↦ rw other (omega arith)
        ])
