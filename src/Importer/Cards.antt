-- ===== src/Importer/Cards.antt =====
-- An import accounts for every row.
use cerradura_magnetica.Prelude.{
  ℕ, suc, ◌+◌, ◌≡◌, refl, ap, ◌∙◌, ◌⊎◌, inl, inr, Bool, false, ◌&&◌, List, [], ◌∷◌, arith,
  if◌then◌else◌, Bool-cases, length, length-append, exists_row,
}
use cerradura_magnetica.Access.{is_empty}
use cerradura_magnetica.Access.Swipe.{mask_card}
use cerradura_magnetica.Importer.{
  Row, RowError, missing_name, missing_card, already_assigned, duplicated, admit, Plan, Registry,
  empty_plan, text_in, org_card, fail, plan_row, plan_rows, import_cardholders,
}

module _ (lower : List ℕ → List ℕ) (is_space : ℕ → Bool) where
  abbrev handled : Plan → ℕ
  handled plan = length plan.creates + plan.skipped + length plan.errors

  -- What comes of a row: skipped, an error, or a new person whose card is neither taken nor repeated.
  abbrev pub Outcome : Registry → ℕ → ℕ → Plan → Row → Plan → Type 0
  Outcome db org line plan row plan' =
      (plan' ≡ record plan { skipped = suc plan.skipped })
      ⊎ ((reason : RowError) × (plan' ≡ fail plan line reason))
      ⊎ ((exists_row (org_card org row.card_number) db.cards ≡ false)
          × (text_in row.card_number plan.seen_cards ≡ false)
          × (plan' ≡ admit lower is_space db org plan row))

  pub plan_row-Outcome :
      (db : Registry) (org line : ℕ) (plan : Plan) (row : Row)
      → Outcome db org line plan row (plan_row lower is_space db org line plan row)
  unfolding plan_row
  plan_row-Outcome db org line plan row =
      elim (Bool-cases (is_empty row.name && is_empty row.card_number)) [
        | inl blank ↦ inl (rw (blank, plan_row) refl)
        | inr filled ↦ elim (Bool-cases (is_empty row.name)) [
          | inl nameless ↦ inr (inl (missing_name, rw (filled, nameless, plan_row) refl))
          | inr named ↦ elim (Bool-cases (is_empty row.card_number)) [
            | inl cardless ↦ inr (inl (missing_card, rw (filled, named, cardless, plan_row) refl))
            | inr carded ↦ elim (Bool-cases (exists_row (org_card org row.card_number) db.cards)) [
              | inl taken ↦ inr (
                  inl (
                    already_assigned (mask_card row.card_number),
                    rw (filled, named, carded, taken, plan_row) refl,
                  ))
              | inr free ↦ elim (Bool-cases (text_in row.card_number plan.seen_cards)) [
                | inl again ↦ inr (
                    inl (
                      duplicated (mask_card row.card_number),
                      rw (filled, named, carded, free, again, plan_row) refl,
                    ))
                | inr first ↦
                    inr (inr (free, first, rw (filled, named, carded, free, first, plan_row) refl))
              ]
            ]
          ]
        ]
      ]

  row_counts :
      (db : Registry) (org line : ℕ) (plan : Plan) (row : Row)
      → handled (plan_row lower is_space db org line plan row) ≡ suc (handled plan)
  row_counts db org line plan row = elim (plan_row-Outcome db org line plan row) [
    | inl skipped ↦ ap handled skipped ∙ omega arith
    | inr (inl (reason, failed)) ↦ ap handled failed ∙ rw length-append (omega arith)
    | inr (inr (free, first, admitted)) ↦ ap handled admitted ∙ rw length-append (omega arith)
  ]

  rows_count :
      (db : Registry) (org line : ℕ) (rows : List Row) (plan : Plan)
      → handled (plan_rows lower is_space db org line plan rows) ≡ handled plan + length rows
  unfolding plan_rows
  rows_count db org line [] plan = omega arith
  rows_count db org line (row ∷ rows) plan = omega (
    arith,
    row_counts db org line plan row,
    rows_count db org (suc line) rows (plan_row lower is_space db org line plan row),
  )

  -- Every row of an import is answered for once: its cardholder is valid, or it is blank and skipped, or
  -- it is listed as an error; and what is created is what is valid, or nothing on a dry run.
  pub import_counted :
      (db : Registry) (org : ℕ) (rows : List Row) (dry_run : Bool)
      → let summary = (import_cardholders lower is_space db org rows dry_run).1 in
        (summary.valid + summary.skipped + length summary.errors ≡ length rows)
        × (summary.created ≡ (if dry_run then 0 else summary.valid))
  unfolding import_cardholders
  import_counted db org rows dry_run = (omega (arith, rows_count db org 2 rows empty_plan), refl)
