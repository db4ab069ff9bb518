-- ===== src/Prelude/Updates.antt =====
-- What an UPDATE of a table does to its counts, its look-ups and what holds of every row.
use Prim.Native.Nat.{◌+◌, ◌≤◌}
use mathlib.Core.Path.{◌≡◌, refl, sym, subst, ap, ◌∙◌}
use mathlib.Core.Bool.{Bool, true, false}
use mathlib.Core.Logic.{inl, inr}
use mathlib.Core.List.{List, [], ◌∷◌, ◌++◌}
use mathlib.Core.Option
use mathlib.Core.Option.{Option, some}
use native.Mathlib.Omega.{arith}
use cerradura_magnetica.Prelude.Tests.{if◌then◌else◌, Bool-cases}
use cerradura_magnetica.Prelude.Table.{
  update_row, find_row, update_rows, row_count, exists_row, All,
}

module _ {ℓ} {A : Type ℓ} where
  -- An UPDATE of rows under `p` that takes each of them out of `p`.
  pub row_count-update_rows :
      (p q : A → Bool) (f : A → A) (xs : List A)
      → ((x : A) → q x ≡ true → (p x ≡ true) × (p (f x) ≡ false))
      → row_count p (update_rows q f xs) + row_count q xs ≡ row_count p xs
  row_count-update_rows p q f [] h = omega arith
  row_count-update_rows p q f (x ∷ xs) h = elim (Bool-cases (q x)) [
    | inl hit ↦
        let (before, after) = h x hit in
        rw (hit, before, after) (omega (arith, row_count-update_rows p q f xs h))
    | inr miss ↦ rw miss (elim (Bool-cases (p x)) [
      | inl e ↦ rw e (omega (arith, row_count-update_rows p q f xs h))
      | inr e ↦ rw e (omega (arith, row_count-update_rows p q f xs h))
    ])
  ]

  -- An UPDATE that touches no row under `p`, and brings none there.
  pub row_count-update_rows_ne :
      (p q : A → Bool) (f : A → A) (xs : List A)
      → ((x : A) → q x ≡ true → (p x ≡ false) × (p (f x) ≡ false))
      → row_count p (update_rows q f xs) ≡ row_count p xs
  row_count-update_rows_ne p q f [] h = refl
  row_count-update_rows_ne p q f (x ∷ xs) h = elim (Bool-cases (q x)) [
    | inl hit ↦
        let (before, after) = h x hit in
        rw (hit, before, after) (row_count-update_rows_ne p q f xs h)
    | inr miss ↦ rw (miss, row_count-update_rows_ne p q f xs h)
  ]

  -- An UPDATE that keeps the test's answer on every row.
  pub row_count-update_rows_same :
      (p q : A → Bool) (f : A → A) (xs : List A)
      → ((x : A) → p (f x) ≡ p x)
      → row_count p (update_rows q f xs) ≡ row_count p xs
  row_count-update_rows_same p q f [] h = refl
  row_count-update_rows_same p q f (x ∷ xs) h = elim (Bool-cases (q x)) [
    | inl hit ↦ rw (hit, h x, row_count-update_rows_same p q f xs h) refl
    | inr miss ↦ rw (miss, row_count-update_rows_same p q f xs h) refl
  ]

  -- A test that is implied by another counts at least as many rows.
  pub row_count_mono :
      (p q : A → Bool) (xs : List A)
      → ((x : A) → p x ≡ true → q x ≡ true)
      → row_count p xs ≤ row_count q xs
  row_count_mono p q [] h = omega arith
  row_count_mono p q (x ∷ xs) h = elim (Bool-cases (p x)) [
    | inl hit ↦ rw (hit, h x hit) (omega (arith, row_count_mono p q xs h))
    | inr miss ↦ rw miss (elim (Bool-cases (q x)) [
      | inl e ↦ rw e (omega (arith, row_count_mono p q xs h))
      | inr e ↦ rw e (row_count_mono p q xs h)
    ])
  ]

  pub All-append {κ} : (P : A → Type κ) (xs ys : List A) → All P xs → All P ys → All P (xs ++ ys)
  All-append P [] ys h k = k
  All-append P (x ∷ xs) ys h k = (h.0, All-append P xs ys h.1 k)

  -- An UPDATE keeps `P` of every row, where `Q` is known of the rows that it touches.
  pub All-update_rows {κ} :
      (P Q : A → Type κ) (q : A → Bool) (f : A → A) (xs : List A)
      → ((x : A) → q x ≡ true → P x → Q x → P (f x))
      → All P xs
      → All Q xs
      → All P (update_rows q f xs)
  All-update_rows P Q q f [] h a b = tt
  All-update_rows P Q q f (x ∷ xs) h a b = elim (Bool-cases (q x)) [
    | inl hit ↦ rw hit (h x hit a.0 b.0, All-update_rows P Q q f xs h a.1 b.1)
    | inr miss ↦ rw miss (a.0, All-update_rows P Q q f xs h a.1 b.1)
  ]

  -- A look-up after an UPDATE that keeps the test's answer finds the row that it found before, updated.
  pub find_row-update_rows :
      (p q : A → Bool) (f : A → A) (xs : List A) {a : A}
      → ((x : A) → p (f x) ≡ p x)
      → find_row p xs ≡ some a
      → find_row p (update_rows q f xs) ≡ some (if q a then f a else a)
  find_row-update_rows p q f [] same h = cc
  find_row-update_rows p q f (x ∷ xs) same h = elim (Bool-cases (p x)) [
    | inl hit ↦
        let found : some x ≡ _ = rw hit at h in
        let kept : p (if q x then f x else x) ≡ true = elim (Bool-cases (q x)) [
          | inl touched ↦ rw touched (same x ∙ hit)
          | inr left ↦ rw left hit
        ] in
        rw kept (ap (Option.map (λ y. if q y then f y else y)) found)
    | inr miss ↦
        let kept : p (if q x then f x else x) ≡ false = elim (Bool-cases (q x)) [
          | inl touched ↦ rw touched (same x ∙ miss)
          | inr left ↦ rw left miss
        ] in
        rw kept (find_row-update_rows p q f xs same (rw miss at h))
  ]

  pub find_row-append_left :
      (p : A → Bool) (xs ys : List A) {a : A}
      → find_row p xs ≡ some a
      → find_row p (xs ++ ys) ≡ some a
  find_row-append_left p [] ys h = cc
  find_row-append_left p (x ∷ xs) ys h = elim (Bool-cases (p x)) [
    | inl hit ↦ rw hit (rw hit at h)
    | inr miss ↦ rw miss (find_row-append_left p xs ys (rw miss at h))
  ]

  -- An UPDATE after which `P` holds of the rows that it touches, where it held of the others.
  pub All-update_rows_intro {κ} :
      (P : A → Type κ) (q : A → Bool) (f : A → A) (xs : List A)
      → ((x : A) → q x ≡ true → P (f x))
      → ((x : A) → q x ≡ false → P x)
      → All P (update_rows q f xs)
  All-update_rows_intro P q f [] h k = tt
  All-update_rows_intro P q f (x ∷ xs) h k = elim (Bool-cases (q x)) [
    | inl hit ↦ rw hit (h x hit, All-update_rows_intro P q f xs h k)
    | inr miss ↦ rw miss (k x miss, All-update_rows_intro P q f xs h k)
  ]

  -- A look-up after an UPDATE of the rows that it looks for, and after one of other rows.
  pub find_row-replace :
      (p : A → Bool) (b : A) (xs : List A) {a : A}
      → p b ≡ true
      → find_row p xs ≡ some a
      → find_row p (update_rows p (λ _. b) xs) ≡ some b
  find_row-replace p b [] e h = cc
  find_row-replace p b (x ∷ xs) e h = elim (Bool-cases (p x)) [
    | inl hit ↦ rw hit (rw e)
    | inr miss ↦ rw miss (rw miss (find_row-replace p b xs e (rw miss at h)))
  ]

  pub find_row-replace_ne :
      (p q : A → Bool) (b : A) (xs : List A)
      → p b ≡ false
      → ((x : A) → q x ≡ true → p x ≡ false)
      → find_row p (update_rows q (λ _. b) xs) ≡ find_row p xs
  find_row-replace_ne p q b [] e h = refl
  find_row-replace_ne p q b (x ∷ xs) e h = elim (Bool-cases (q x)) [
    | inl hit ↦ rw (hit, e, h x hit, find_row-replace_ne p q b xs e h) refl
    | inr miss ↦ rw (miss, find_row-replace_ne p q b xs e h) refl
  ]

pub update_rows-append {ℓ} :
    {A : Type ℓ} (p : A → Bool) (f : A → A) (xs ys : List A)
    → update_rows p f (xs ++ ys) ≡ update_rows p f xs ++ update_rows p f ys
update_rows-append p f [] ys = refl
update_rows-append p f (x ∷ xs) ys = rw (update_rows-append p f xs ys) refl

module _ {ℓ κ} {A : Type ℓ} where
  -- An UPDATE that takes `P` of the rows before to `R` of the rows after.
  pub All-update_rows_to {μ} :
      (P : A → Type κ) (R : A → Type μ) (q : A → Bool) (f : A → A) (xs : List A)
      → ((x : A) → q x ≡ true → P x → R (f x))
      → ((x : A) → q x ≡ false → P x → R x)
      → All P xs
      → All R (update_rows q f xs)
  All-update_rows_to P R q f [] h k a = tt
  All-update_rows_to P R q f (x ∷ xs) h k a = elim (Bool-cases (q x)) [
    | inl hit ↦ rw hit (h x hit a.0, All-update_rows_to P R q f xs h k a.1)
    | inr miss ↦ rw miss (k x miss a.0, All-update_rows_to P R q f xs h k a.1)
  ]

module _ {ℓ} {A : Type ℓ} where
  pub exists_row-update_row :
      (p q : A → Bool) (f : A → A) (xs : List A)
      → ((x : A) → p (f x) ≡ p x)
      → exists_row p xs ≡ true
      → exists_row p (update_row q f xs) ≡ true
  exists_row-update_row p q f [] same h = cc
  exists_row-update_row p q f (x ∷ xs) same h = elim (Bool-cases (q x)) [
    | inl hit ↦ let kept = same x in rw hit (ground (arith, h, kept))
    | inr miss ↦ rw miss (ground (arith, h, exists_row-update_row p q f xs same))
  ]

  -- What holds of every row holds after an UPDATE that keeps it of the row that is found.
  pub All-update_row {κ} :
      (P : A → Type κ) (q : A → Bool) (f : A → A) (xs : List A) {a : A}
      → find_row q xs ≡ some a
      → (P a → P (f a))
      → All P xs
      → All P (update_row q f xs)
  All-update_row P q f [] e k h = tt
  All-update_row P q f (x ∷ xs) {a} e k h = elim (Bool-cases (q x)) [
    | inl hit ↦
        let found : some x ≡ some a = rw hit at e in
        let same : x ≡ a = cc in
        let kept : P (f x) = subst (λ y. P y → P (f y)) (sym same) k h.0 in rw hit (kept, h.1)
    | inr miss ↦ rw miss (h.0, All-update_row P q f xs (rw miss at e) k h.1)
  ]
