-- ===== src/Importer/Unique.antt =====
-- An import gives no card to two people.
use mathlib.Core.Path.{subst}
use cerradura_magnetica.Prelude.{
  ℕ, suc, ◌+◌, ◌≤◌, ◌≡◌, refl, sym, ap, inl, inr, Bool, true, false, ◌&&◌, List, [], ◌∷◌, ◌++◌,
  Option, none, some, arith, ◌==◌, ==_iff, Bool-cases, Option-cases, exists_row, row_count,
  row_count-append, row_count-exists_row, row_count_mono,
}
use cerradura_magnetica.Access.{same_codes, same_codes-eq}
use cerradura_magnetica.Importer.{
  Row, admit, Item, Plan, Registry, Card, empty_plan, text_in, org_card, plan_row, plan_rows,
  find_department, ensure_department, apply_item, apply_items, import_cardholders,
}
use cerradura_magnetica.Importer.Cards.{plan_row-Outcome}

abbrev pub item_card : List ℕ → Item → Bool
item_card number i = same_codes i.card_number number

-- No two cards of an organization have the same number.
abbrev pub UniqueCards : List Card → Type 0
UniqueCards cards = (org : ℕ) (number : List ℕ) → row_count (org_card org number) cards ≤ 1

row_count_never :
    {A : Type 0} (p : A → Bool) (xs : List A) → ((x : A) → p x ≡ false) → row_count p xs ≡ 0
row_count_never p [] never = refl
row_count_never p (x ∷ xs) never = rw (never x) (row_count_never p xs never)

module _ (lower : List ℕ → List ℕ) (is_space : ℕ → Bool) where
  -- The plan's cards are neither repeated nor taken, and those that were seen are all of them.
  abbrev IsClean : Registry → ℕ → Plan → Type 0
  IsClean db org plan =
      ((number : List ℕ)
        → row_count (item_card number) plan.creates + row_count (org_card org number) db.cards ≤ 1)
      × ((number : List ℕ)
          → text_in number plan.seen_cards ≡ false
          → row_count (item_card number) plan.creates ≡ 0)

  admit-IsClean :
      (db : Registry) (org : ℕ) (plan : Plan) (row : Row)
      → exists_row (org_card org row.card_number) db.cards ≡ false
      → text_in row.card_number plan.seen_cards ≡ false
      → IsClean db org plan
      → IsClean db org (admit lower is_space db org plan row)
  admit-IsClean db org plan row free first (once, unseen) = (
    λ number. rw row_count-append (elim (Bool-cases (same_codes row.card_number number)) [
      | inr other ↦ rw other (omega (arith, once number))
      | inl own ↦
          let same = same_codes-eq row.card_number number own in
          let not_planned : row_count (item_card number) plan.creates ≡ 0 =
            subst (λ n. row_count (item_card n) plan.creates ≡ 0) same
              (unseen row.card_number first) in
          let not_taken : row_count (org_card org number) db.cards ≡ 0 =
            subst (λ n. row_count (org_card org n) db.cards ≡ 0) same
              (row_count-exists_row (org_card org row.card_number) db.cards free) in
          rw own (omega (arith, not_planned, not_taken))
    ]),
    λ number new.
        let other : same_codes row.card_number number ≡ false = ground (arith, new) in
        let before : text_in number plan.seen_cards ≡ false = ground (arith, new) in
        rw row_count-append (rw other (omega (arith, unseen number before))),
  )

  plan_row-IsClean :
      (db : Registry) (org line : ℕ) (plan : Plan) (row : Row)
      → IsClean db org plan
      → IsClean db org (plan_row lower is_space db org line plan row)
  plan_row-IsClean db org line plan row clean =
      elim (plan_row-Outcome lower is_space db org line plan row) [
        | inl skipped ↦ subst (IsClean db org) (sym skipped) clean
        | inr (inl (reason, failed)) ↦ subst (IsClean db org) (sym failed) clean
        | inr (inr (free, first, admitted)) ↦
            subst (IsClean db org) (sym admitted) (admit-IsClean db org plan row free first clean)
      ]

  plan_rows-IsClean :
      (db : Registry) (org line : ℕ) (rows : List Row) (plan : Plan)
      → IsClean db org plan
      → IsClean db org (plan_rows lower is_space db org line plan rows)
  unfolding plan_rows
  plan_rows-IsClean db org line [] plan clean = clean
  plan_rows-IsClean db org line (row ∷ rows) plan clean =
      plan_rows-IsClean db org (suc line) rows (plan_row lower is_space db org line plan row)
        (plan_row-IsClean db org line plan row clean)

  -- Making a department leaves the cards alone.
  ensure_department-cards :
      (db : Registry) (org : ℕ) (name : Option (List ℕ))
      → (ensure_department lower is_space db org name).0.cards ≡ db.cards
  unfolding ensure_department
  ensure_department-cards db org none = refl
  ensure_department-cards db org (some name) =
      elim (Option-cases (find_department lower is_space db org name)) [
        | inl absent ↦ rw (absent, ensure_department) refl
        | inr (d, present) ↦ rw (present, ensure_department) refl
      ]

  abbrev own_item : ℕ → ℕ → List ℕ → Item → Bool
  own_item org o number i = org == o && same_codes i.card_number number

  apply_items-cards :
      (org o : ℕ) (number : List ℕ) (items : List Item) (db : Registry)
      → row_count (org_card o number) (apply_items lower is_space db org items).cards
        ≡ row_count (own_item org o number) items + row_count (org_card o number) db.cards
  unfolding apply_items apply_item
  apply_items-cards org o number [] db = omega arith
  apply_items-cards org o number (item ∷ items) db =
      let db' = apply_item lower is_space db org item in
      let rest = apply_items-cards org o number items db' in
      let card : Card = record {
        organization_id = org;
        cardholder_id = (ensure_department lower is_space db org item.department).0.next_person;
        card_number = item.card_number;
      } in
      let grown : row_count (org_card o number) db'.cards
          ≡ row_count (org_card o number) (db.cards ++ card ∷ []) =
        ap (λ cs. row_count (org_card o number) (cs ++ card ∷ []))
          (ensure_department-cards db org item.department) in
      let split = row_count-append (org_card o number) db.cards (card ∷ []) in
      ground (arith, rest, grown, split)

  applied-UniqueCards :
      (db : Registry) (org : ℕ) (plan : Plan)
      → UniqueCards db.cards
      → IsClean db org plan
      → UniqueCards (apply_items lower is_space db org plan.creates).cards
  applied-UniqueCards db org plan unique (once, unseen) o number =
      let total = apply_items-cards org o number plan.creates db in
      elim (Bool-cases (org == o)) [
        | inl own ↦
            let same : org ≡ o = (==_iff org o).0 own in
            let few : row_count (own_item org o number) plan.creates
                ≤ row_count (item_card number) plan.creates =
              row_count_mono (own_item org o number) (item_card number) plan.creates
                (λ i h. ground (arith, h)) in
            let bound : row_count (item_card number) plan.creates
                  + row_count (org_card o number) db.cards
                ≤ 1 =
              subst
                (λ x.
                  row_count (item_card number) plan.creates + row_count (org_card x number) db.cards
                  ≤ 1)
                same (once number) in
            omega (arith, total, few, bound)
        | inr other ↦
            let nothing : row_count (own_item org o number) plan.creates ≡ 0 =
              row_count_never (own_item org o number) plan.creates (λ i. ground (arith, other)) in
            omega (arith, total, nothing, unique o number)
      ]

  -- An import, dry or not, leaves no card with two people of an organization: it keeps the unique
  -- constraint on card numbers, whatever its rows are and repeat.
  pub import-UniqueCards :
      (db : Registry) (org : ℕ) (rows : List Row) (dry_run : Bool)
      → UniqueCards db.cards
      → UniqueCards (import_cardholders lower is_space db org rows dry_run).0.cards
  unfolding import_cardholders
  import-UniqueCards db org rows true unique = unique
  import-UniqueCards db org rows false unique =
      applied-UniqueCards db org (plan_rows lower is_space db org 2 empty_plan rows) unique (
        plan_rows-IsClean db org 2 rows empty_plan
          (λ number. omega (arith, unique org number), λ number new. refl))
