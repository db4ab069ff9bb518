-- ===== src/Importer/Tests.antt =====
-- Five rows: a person, a blank one, a card without a name, the first card again, and one that is taken.
use cerradura_magnetica.Prelude.{ℕ, ◌≡◌, refl, Bool, false, List, [], ◌∷◌, arith, ◌==◌, length, map}
use cerradura_magnetica.Importer.{
  Row, Registry, ImportSummary, import_cardholders, plan_row, apply_item, ensure_department,
}
use cerradura_magnetica.Importer.Unique.{UniqueCards, import-UniqueCards}

abbrev same_case : List ℕ → List ℕ
same_case name = name

abbrev is_blank : ℕ → Bool
is_blank c = c == b' '

abbrev registry : Registry
registry = record {
  departments = [];
  next_department = 1;
  people = [];
  next_person = 4;
  cards = record { organization_id = 1; cardholder_id = 3; card_number = b'9' ∷ [] } ∷ [];
}

abbrev ana : Row
ana = record {
  name = b'A' ∷ b' ' ∷ b'B' ∷ [];
  card_number = b'7' ∷ [];
  employee_number = [];
  department = b'X' ∷ [];
}

abbrev blank : Row
blank = record { name = []; card_number = []; employee_number = []; department = [] }

abbrev rows : List Row
rows =
    ana
    ∷ blank
    ∷ record blank { card_number = b'8' ∷ [] }
    ∷ ana
    ∷ record ana { card_number = b'9' ∷ [] }
    ∷ []

abbrev done : Registry × ImportSummary
done = import_cardholders same_case is_blank registry 1 rows false

summary :
    (done.1.created ≡ 1)
    × (done.1.skipped ≡ 1)
    × (length done.1.errors ≡ 3)
    × (map (λ c. c.card_number) done.0.cards ≡ (b'9' ∷ []) ∷ (b'7' ∷ []) ∷ [])
unfolding import_cardholders plan_row apply_item ensure_department
summary = (refl, refl, refl, refl)

registry-UniqueCards : UniqueCards registry.cards
registry-UniqueCards org number = ground arith

import-UniqueCards_example : UniqueCards done.0.cards
import-UniqueCards_example =
    import-UniqueCards same_case is_blank registry 1 rows false registry-UniqueCards
