-- ===== src/Api/People.antt =====
-- backend/app/api/v1/cardholders.py: creating, updating and deleting a cardholder. The association of
-- cardholders and access levels is the list of cardholders that a level holds. A handler that raises
-- commits nothing, so that the tables stay. Names, addresses and audit rows are left out, and so are the
-- listings, the credentials that go with a cardholder, and the uploads.
pub mod Tenant
pub mod Preserved
pub mod Isolation
pub mod Tests
use cerradura_magnetica.Prelude.{
  ℕ, suc, Bool, true, false, ◌&&◌, not, List, [], ◌∷◌, ◌++◌, map, length, Option, none, some,
  Result, ok, err, ◌==◌, if◌then◌else◌, select, update_row, exists_row,
}
use cerradura_magnetica.Models.Access.{AccessLevel}
use cerradura_magnetica.Models.Attendance.{Shift}
use cerradura_magnetica.Importer.{Department}
use cerradura_magnetica.Access.{listed}
use cerradura_magnetica.Api.{ApiError, get_or_404}
use cerradura_magnetica.Api.Credentials.{or_old}

pub record Holder : Type 0 where
  pub id : ℕ
  pub organization_id : ℕ
  pub department_id : Option ℕ
  pub shift_id : Option ℕ
  pub valid_from : Option ℕ
  pub valid_to : Option ℕ
  pub is_active : Bool

pub record Roster : Type 0 where
  pub departments : List Department
  pub shifts : List Shift
  pub levels : List AccessLevel
  pub holders : List Holder
  pub next_holder : ℕ

pub data PeopleError : Type 0 where
  missing : ApiError → PeopleError
  levels_not_found not_null_violation : PeopleError

pub record CardholderCreate : Type 0 where
  pub department_id : Option ℕ
  pub shift_id : Option ℕ
  pub valid_from : Option ℕ
  pub valid_to : Option ℕ
  pub is_active : Bool
  pub access_level_ids : List ℕ

-- A field is `none` when it was not sent, and `some none` when it was sent as null.
pub record CardholderUpdate : Type 0 where
  pub department_id : Option (Option ℕ)
  pub shift_id : Option (Option ℕ)
  pub valid_from : Option (Option ℕ)
  pub valid_to : Option (Option ℕ)
  pub is_active : Option (Option Bool)
  pub access_level_ids : Option (Option (List ℕ))

-- `data.get(...)` of a field that may be missing
abbrev pub sent : {A : Type 0} → Option (Option A) → Option A
sent none = none
sent (some value) = value

-- `len(set(ids))`
abbrev pub distinct : List ℕ → ℕ
distinct [] = 0
distinct (x ∷ xs) = let rest = distinct xs in if listed xs x then rest else suc rest

abbrev pub is_requested : ℕ → List ℕ → AccessLevel → Bool
is_requested org_id ids l = l.organization_id == org_id && listed ids l.id

unfoldable pub resolve_access_levels :
    List AccessLevel → ℕ → List ℕ → Result PeopleError (List AccessLevel)
resolve_access_levels levels org_id ids =
    let found = select (is_requested org_id ids) levels in
    if length found == distinct ids then ok found else err levels_not_found

-- A department, or a shift, that is named must be one of the organization's.
unfoldable pub check_owned :
    {A : Type 0} (id_of org_of : A → ℕ) → List A → Option ℕ → ℕ → Result PeopleError (Option ℕ)
check_owned id_of org_of rows none org_id = ok none
check_owned id_of org_of rows (some id) org_id = elim (get_or_404 id_of org_of rows id org_id) [
  | err e ↦ err (missing e)
  | ok row ↦ ok (some id)
]

abbrev pub check_department : List Department → Option ℕ → ℕ → Result PeopleError (Option ℕ)
check_department = check_owned (λ (d : Department). d.id) (λ d. d.organization_id)

abbrev pub check_shift : List Shift → Option ℕ → ℕ → Result PeopleError (Option ℕ)
check_shift = check_owned (λ (s : Shift). s.id) (λ s. s.organization_id)

abbrev pub same_level : AccessLevel → AccessLevel → Bool
same_level l f = f.id == l.id && f.organization_id == l.organization_id

abbrev pub without : ℕ → List ℕ → List ℕ
without holder_id ids = select (λ x. not (x == holder_id)) ids

-- `holder.access_levels = found`, in the row of one level.
abbrev pub assign : ℕ → List AccessLevel → AccessLevel → AccessLevel
assign holder_id found l =
    if exists_row (same_level l) found
    then record l { cardholder_ids = without holder_id l.cardholder_ids ++ holder_id ∷ [] }
    else record l { cardholder_ids = without holder_id l.cardholder_ids }

abbrev pub new_holder : ℕ → ℕ → CardholderCreate → Holder
new_holder id org_id body = record {
  id = id;
  organization_id = org_id;
  department_id = body.department_id;
  shift_id = body.shift_id;
  valid_from = body.valid_from;
  valid_to = body.valid_to;
  is_active = body.is_active;
}

unfoldable pub create_cardholder :
    Roster → CardholderCreate → ℕ → Roster × Result PeopleError Holder
create_cardholder p body org_id = elim (check_department p.departments body.department_id org_id) [
  | err e ↦ (p, err e)
  | ok _ ↦ elim (check_shift p.shifts body.shift_id org_id) [
    | err e ↦ (p, err e)
    | ok _ ↦ elim (resolve_access_levels p.levels org_id body.access_level_ids) [
      | err e ↦ (p, err e)
      | ok found ↦
          let holder = new_holder p.next_holder org_id body in
          (
            record p {
              holders = p.holders ++ holder ∷ [];
              levels = map (assign p.next_holder found) p.levels;
              next_holder = suc p.next_holder;
            },
            ok holder,
          )
    ]
  ]
]

abbrev pub get_holder : List Holder → ℕ → ℕ → Result ApiError Holder
get_holder = get_or_404 (λ (h : Holder). h.id) (λ h. h.organization_id)

abbrev pub write_fields : CardholderUpdate → Holder → Holder
write_fields body h = record h {
  department_id = or_old body.department_id h.department_id;
  shift_id = or_old body.shift_id h.shift_id;
  valid_from = or_old body.valid_from h.valid_from;
  valid_to = or_old body.valid_to h.valid_to;
  is_active = or_old (sent body.is_active) h.is_active;
}

-- The access levels after an update: those of the body, if it has any.
unfoldable pub update_levels :
    Roster → ℕ → Option (List ℕ) → ℕ → Result PeopleError (List AccessLevel)
unfolding resolve_access_levels
update_levels p holder_id none org_id = ok p.levels
update_levels p holder_id (some ids) org_id = elim (resolve_access_levels p.levels org_id ids) [
  | err e ↦ err e
  | ok found ↦ ok (map (assign holder_id found) p.levels)
]

-- The column `is_active` takes no null.
abbrev pub is_null : {A : Type 0} → Option (Option A) → Bool
is_null none = false
is_null (some none) = true
is_null (some (some value)) = false

unfoldable pub update_cardholder :
    Roster → ℕ → CardholderUpdate → ℕ → Roster × Result PeopleError (Unit {0})
update_cardholder p holder_id body org_id = elim (get_holder p.holders holder_id org_id) [
  | err e ↦ (p, err (missing e))
  | ok holder ↦ elim (check_department p.departments (sent body.department_id) org_id) [
    | err e ↦ (p, err e)
    | ok _ ↦ elim (check_shift p.shifts (sent body.shift_id) org_id) [
      | err e ↦ (p, err e)
      | ok _ ↦ elim (update_levels p holder_id (sent body.access_level_ids) org_id) [
        | err e ↦ (p, err e)
        | ok levels ↦ if is_null body.is_active then (p, err not_null_violation) else (
          record p {
            holders = update_row (λ h. h.id == holder_id) (write_fields body) p.holders;
            levels = levels;
          },
          ok tt,
        )
      ]
    ]
  ]
]

-- The rows of the association go with the cardholder.
unfoldable pub delete_cardholder : Roster → ℕ → ℕ → Roster × Result PeopleError (Unit {0})
delete_cardholder p holder_id org_id = elim (get_holder p.holders holder_id org_id) [
  | err e ↦ (p, err (missing e))
  | ok holder ↦ (
    record p {
      holders = select (λ (h : Holder). not (h.id == holder_id)) p.holders;
      levels =
          map
            (λ (l : AccessLevel). record l { cardholder_ids = without holder_id l.cardholder_ids })
            p.levels;
    },
    ok tt,
  )
]
