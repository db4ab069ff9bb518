-- ===== src/Importer.antt =====
-- backend/app/services/importer.py: the import of cardholders, from the rows that the CSV reader gives,
-- their cells stripped and keyed by the canonical headers; a missing cell is empty. Decoding, the
-- delimiter and the headers are left out. Texts are lists of character codes; `str.lower` and the
-- white space of `str.split` are parameters.
pub mod Cards
pub mod Unique
pub mod Tests
use cerradura_magnetica.Prelude.{
  ℕ, suc, Bool, ◌&&◌, ◌||◌, List, [], ◌∷◌, ◌++◌, Option, none, some, ◌==◌, if◌then◌else◌, length,
  exists_row, last_row,
}
use cerradura_magnetica.Access.{same_codes, is_empty}
use cerradura_magnetica.Access.Swipe.{mask_card}

pub record Row : Type 0 where
  pub name : List ℕ
  pub card_number : List ℕ
  pub employee_number : List ℕ
  pub department : List ℕ

pub data RowError : Type 0 where
  missing_name missing_card : RowError
  already_assigned duplicated : List ℕ → RowError

-- One planned cardholder with the card.
pub record Item : Type 0 where
  pub first_name : List ℕ
  pub last_name : List ℕ
  pub employee_number : Option (List ℕ)
  pub department : Option (List ℕ)
  pub card_number : List ℕ

pub record Plan : Type 0 where
  pub creates : List Item
  pub skipped : ℕ
  pub errors : List (ℕ × RowError)
  pub seen_cards : List (List ℕ)
  pub new_departments : List (List ℕ)

pub record Department : Type 0 where
  pub id : ℕ
  pub organization_id : ℕ
  pub name : List ℕ

-- backend/app/models/people.py: the columns of a cardholder and a credential that the import fills
pub record Person : Type 0 where
  pub id : ℕ
  pub organization_id : ℕ
  pub first_name : List ℕ
  pub last_name : List ℕ
  pub employee_number : Option (List ℕ)
  pub department_id : Option ℕ

pub record Card : Type 0 where
  pub organization_id : ℕ
  pub cardholder_id : ℕ
  pub card_number : List ℕ

pub record Registry : Type 0 where
  pub departments : List Department
  pub next_department : ℕ
  pub people : List Person
  pub next_person : ℕ
  pub cards : List Card

pub record ImportSummary : Type 0 where
  pub dry_run : Bool
  pub created : ℕ
  pub valid : ℕ
  pub skipped : ℕ
  pub new_departments : List (List ℕ)
  pub errors : List (ℕ × RowError)

abbrev pub empty_plan : Plan
empty_plan = record {
  creates = [];
  skipped = 0;
  errors = [];
  seen_cards = [];
  new_departments = [];
}

abbrev pub text_or_none : List ℕ → Option (List ℕ)
text_or_none [] = none
text_or_none (c ∷ cs) = some (c ∷ cs)

abbrev pub text_in : List ℕ → List (List ℕ) → Bool
text_in t ts = exists_row (λ x. same_codes x t) ts

abbrev pub org_card : ℕ → List ℕ → Card → Bool
org_card organization_id number c =
    c.organization_id == organization_id && same_codes c.card_number number

abbrev pub fail : Plan → ℕ → RowError → Plan
fail plan line reason = record plan { errors = plan.errors ++ (line, reason) ∷ [] }

module _ (lower : List ℕ → List ℕ) (is_space : ℕ → Bool) where
  -- `str.split()`: `word` is the word that is being read.
  abbrev pub words_from : List ℕ → List ℕ → List (List ℕ)
  words_from word [] = if is_empty word then [] else word ∷ []
  words_from word (c ∷ cs) =
      let cut = words_from [] cs in
      let longer = words_from (word ++ c ∷ []) cs in
      if is_space c then (if is_empty word then cut else word ∷ cut) else longer

  abbrev pub join : List (List ℕ) → List ℕ
  join [] = []
  join (w ∷ []) = w
  join (w ∷ v ∷ ws) = w ++ b' ' ∷ join (v ∷ ws)

  abbrev pub or_dash : List ℕ → List ℕ
  or_dash [] = b'-' ∷ []
  or_dash (c ∷ cs) = c ∷ cs

  abbrev pub first_word : List (List ℕ) → List ℕ
  first_word [] = []
  first_word (w ∷ ws) = w

  abbrev pub rest_words : List (List ℕ) → List (List ℕ)
  rest_words [] = []
  rest_words (w ∷ ws) = ws

  abbrev pub new_item : Row → Item
  new_item row = record {
    first_name = first_word (words_from [] row.name);
    last_name = or_dash (join (rest_words (words_from [] row.name)));
    employee_number = text_or_none row.employee_number;
    department = text_or_none row.department;
    card_number = row.card_number;
  }

  abbrev pub known_department : Registry → ℕ → List ℕ → Bool
  known_department db organization_id name =
      exists_row
        (λ (d : Department).
          d.organization_id == organization_id && same_codes (lower d.name) (lower name))
        db.departments

  -- `new_departments.setdefault(dept_name, None)`
  abbrev pub note_department : Registry → ℕ → List (List ℕ) → List ℕ → List (List ℕ)
  note_department db organization_id names name =
      if is_empty name || known_department db organization_id name || text_in name names
      then names
      else names ++ name ∷ []

  abbrev pub admit : Registry → ℕ → Plan → Row → Plan
  admit db organization_id plan row = record plan {
    creates = plan.creates ++ new_item row ∷ [];
    seen_cards = row.card_number ∷ plan.seen_cards;
    new_departments = note_department db organization_id plan.new_departments row.department;
  }

  -- One row of the loop.
  unfoldable pub plan_row : Registry → ℕ → ℕ → Plan → Row → Plan
  plan_row db organization_id line plan row =
      if is_empty row.name && is_empty row.card_number
      then record plan { skipped = suc plan.skipped }
      else if is_empty row.name
      then fail plan line missing_name
      else if is_empty row.card_number
      then fail plan line missing_card
      else if exists_row (org_card organization_id row.card_number) db.cards
      then fail plan line (already_assigned (mask_card row.card_number))
      else if text_in row.card_number plan.seen_cards
      then fail plan line (duplicated (mask_card row.card_number))
      else admit db organization_id plan row

  unfoldable pub plan_rows : Registry → ℕ → ℕ → Plan → List Row → Plan
  plan_rows db organization_id line plan [] = plan
  plan_rows db organization_id line plan (row ∷ rows) =
      plan_rows db organization_id (suc line) (plan_row db organization_id line plan row) rows

  abbrev pub find_department : Registry → ℕ → List ℕ → Option Department
  find_department db organization_id name =
      last_row
        (λ (d : Department).
          d.organization_id == organization_id && same_codes (lower d.name) (lower name))
        db.departments

  -- The item's department, made where there is none of its name.
  unfoldable pub ensure_department : Registry → ℕ → Option (List ℕ) → Registry × Option ℕ
  ensure_department db organization_id none = (db, none)
  ensure_department db organization_id (some name) =
      elim (find_department db organization_id name) [
        | some d ↦ (db, some d.id)
        | none ↦
            let d : Department = record {
              id = db.next_department;
              organization_id = organization_id;
              name = name;
            } in
            (
              record db {
                departments = db.departments ++ d ∷ [];
                next_department = suc db.next_department;
              },
              some db.next_department,
            )
      ]

  unfoldable pub apply_item : Registry → ℕ → Item → Registry
  apply_item db organization_id item =
      let (db', department_id) = ensure_department db organization_id item.department in
      record db' {
        people =
            db'.people
            ++ record {
              id = db'.next_person;
              organization_id = organization_id;
              first_name = item.first_name;
              last_name = item.last_name;
              employee_number = item.employee_number;
              department_id = department_id;
            }
              ∷ [];
        next_person = suc db'.next_person;
        cards =
            db'.cards
            ++ record {
              organization_id = organization_id;
              cardholder_id = db'.next_person;
              card_number = item.card_number;
            }
              ∷ [];
      }

  unfoldable pub apply_items : Registry → ℕ → List Item → Registry
  apply_items db organization_id [] = db
  apply_items db organization_id (item ∷ items) =
      apply_items (apply_item db organization_id item) organization_id items

  abbrev pub summarise : Plan → Bool → ImportSummary
  summarise plan dry_run = record {
    dry_run = dry_run;
    created = if dry_run then 0 else length plan.creates;
    valid = length plan.creates;
    skipped = plan.skipped;
    new_departments = plan.new_departments;
    errors = plan.errors;
  }

  unfoldable pub import_cardholders : Registry → ℕ → List Row → Bool → Registry × ImportSummary
  unfolding plan_rows apply_items
  import_cardholders db organization_id rows dry_run =
      let plan = plan_rows db organization_id 2 empty_plan rows in
      (
        (if dry_run then db else apply_items db organization_id plan.creates),
        summarise plan dry_run,
      )
