-- ===== src/Api/People/Tenant.antt =====
-- Cardholders, departments, shifts and access levels of one organization stay with each other under the
-- endpoints of backend/app/api/v1/cardholders.py.
use cerradura_magnetica.Prelude.{
  both, both_of, All-map_intro, ℕ, ◌≡◌, refl, sym, subst, ap, ◌∙◌, Bool, true, ◌&&◌, ◌||◌, not,
  List, [], ◌∷◌, map, length, Option, none, some, ok, err, ◌==◌, ==_iff, Bool-cases, Result-cases,
  inl, inr, select, exists_row, find_row-exists_row, All, All-append, All-imp, All-select,
}
use cerradura_magnetica.Models.Access.{AccessLevel}
use cerradura_magnetica.Models.Attendance.{Shift}
use cerradura_magnetica.Importer.{Department}
use cerradura_magnetica.Access.{listed}
use cerradura_magnetica.Api.{get_or_404, get_or_404-eq-ok}
use cerradura_magnetica.Api.People.{
  Holder, Roster, missing, levels_not_found, distinct, is_requested, resolve_access_levels,
  check_owned, same_level, without, assign,
}

-- The row that is referred to, if any, is one of the organization's.
abbrev pub refers : {A : Type 0} (id_of org_of : A → ℕ) → List A → ℕ → Option ℕ → Bool
refers id_of org_of rows org_id none = true
refers id_of org_of rows org_id (some id) =
    exists_row (λ r. id_of r == id && org_of r == org_id) rows

abbrev pub IsPlaced : List Department → List Shift → Holder → Type 0
IsPlaced departments shifts h =
    (refers (λ (d : Department). d.id) (λ d. d.organization_id) departments h.organization_id
        h.department_id
      ≡ true)
    × (refers (λ (s : Shift). s.id) (λ s. s.organization_id) shifts h.organization_id h.shift_id
        ≡ true)

-- The cardholder of the identifier, in the organization.
abbrev pub is_row : ℕ → ℕ → Holder → Bool
is_row id org_id h = h.id == id && h.organization_id == org_id

-- Every cardholder of the level is one of its organization's.
abbrev pub IsHeld : List Holder → AccessLevel → Type 0
IsHeld holders l =
    All (λ x. exists_row (is_row x l.organization_id) holders ≡ true) l.cardholder_ids

pub record IsScoped (p : Roster) : Type 0 where
  pub placed : All (IsPlaced p.departments p.shifts) p.holders
  pub held : All (IsHeld p.holders) p.levels

-- A row that the check lets by is the organization's.
pub check_owned-refers :
    {A : Type 0} (id_of org_of : A → ℕ) (rows : List A) (asked : Option ℕ) (org_id : ℕ)
    {answer : Option ℕ}
    → check_owned id_of org_of rows asked org_id ≡ ok answer
    → refers id_of org_of rows org_id asked ≡ true
unfolding check_owned
check_owned-refers id_of org_of rows none org_id h = refl
check_owned-refers id_of org_of rows (some id) org_id {answer} h =
    elim (Result-cases (get_or_404 id_of org_of rows id org_id)) [
      | inl (row, found) ↦
          let (first, same, own) = get_or_404-eq-ok id_of org_of rows id org_id found in
          find_row-exists_row (λ r. id_of r == id) (λ r. id_of r == id && org_of r == org_id) rows
            first
            (both (id_of row == id) (org_of row == org_id) ((==_iff (id_of row) id).1 same)
              ((==_iff (org_of row) org_id).1 own))
      | inr (e, failed) ↦
          let stuck : err (missing e) ≡ ok answer = rw (failed, check_owned) at h in cc
    ]

-- A level that is assigned is one of the organization's.
found-org :
    (org_id : ℕ) (ids : List ℕ) (levels : List AccessLevel) (l : AccessLevel)
    → exists_row (same_level l) (select (is_requested org_id ids) levels) ≡ true
    → l.organization_id ≡ org_id
found-org org_id ids [] l h = cc
found-org org_id ids (x ∷ xs) l h = elim (Bool-cases (is_requested org_id ids x)) [
  | inr other ↦ found-org org_id ids xs l (rw other at h)
  | inl asked ↦
      let here : (same_level l x || exists_row (same_level l) (select (is_requested org_id ids) xs))
          ≡ true =
        rw asked at h in
      elim (Bool-cases (same_level l x)) [
        | inr other ↦ found-org org_id ids xs l (rw other at here)
        | inl same ↦
            let (id, org) = both_of (x.id == l.id) (x.organization_id == l.organization_id) same in
            let (own, listed_in) = both_of (x.organization_id == org_id) (listed ids x.id) asked in
            sym ((==_iff x.organization_id l.organization_id).0 org)
            ∙ (==_iff x.organization_id org_id).0 own
      ]
]

-- What assigning levels of the organization does to one level.
assign-IsHeld :
    (holders after : List Holder) (holder_id org_id : ℕ) (found : List AccessLevel)
    (l : AccessLevel)
    → ((x org : ℕ)
        → exists_row (is_row x org) holders ≡ true
        → exists_row (is_row x org) after ≡ true)
    → exists_row (is_row holder_id org_id) after ≡ true
    → (exists_row (same_level l) found ≡ true → l.organization_id ≡ org_id)
    → IsHeld holders l
    → IsHeld after (assign holder_id found l)
assign-IsHeld holders after holder_id org_id found l kept there own h =
    let P : ℕ → Type 0 = λ x. exists_row (is_row x l.organization_id) after ≡ true in
    let others : All P (without holder_id l.cardholder_ids) =
      All-select P (λ x. not (x == holder_id)) l.cardholder_ids
        (All-imp (λ x. exists_row (is_row x l.organization_id) holders ≡ true) P l.cardholder_ids
          (λ x. kept x l.organization_id) h) in
    elim (Bool-cases (exists_row (same_level l) found)) [
      | inr left ↦ rw left others
      | inl chosen ↦
          let of_org : P holder_id =
            subst (λ o. exists_row (is_row holder_id o) after ≡ true) (sym (own chosen)) there in
          rw chosen
            (All-append P (without holder_id l.cardholder_ids) (holder_id ∷ []) others (of_org, tt))
    ]

resolve-eq-ok :
    (levels : List AccessLevel) (org_id : ℕ) (ids : List ℕ) {found : List AccessLevel}
    → resolve_access_levels levels org_id ids ≡ ok found
    → select (is_requested org_id ids) levels ≡ found
unfolding resolve_access_levels
resolve-eq-ok levels org_id ids {found} h =
    elim (Bool-cases (length (select (is_requested org_id ids) levels) == distinct ids)) [
      | inl all ↦
          let same : ok (select (is_requested org_id ids) levels) ≡ ok found =
            rw (resolve_access_levels, all) at h in
          cc
      | inr some_missing ↦
          let stuck : err levels_not_found ≡ ok found =
            rw (resolve_access_levels, some_missing) at h in
          cc
    ]

-- The levels after they were assigned.
pub assigned-IsHeld :
    (p : Roster) (after : List Holder) (holder_id org_id : ℕ) (ids : List ℕ)
    {found : List AccessLevel}
    → ((x org : ℕ)
        → exists_row (is_row x org) p.holders ≡ true
        → exists_row (is_row x org) after ≡ true)
    → exists_row (is_row holder_id org_id) after ≡ true
    → resolve_access_levels p.levels org_id ids ≡ ok found
    → All (IsHeld p.holders) p.levels
    → All (IsHeld after) (map (assign holder_id found) p.levels)
assigned-IsHeld p after holder_id org_id ids {found} kept there resolved held =
    let same = resolve-eq-ok p.levels org_id ids resolved in
    All-map_intro (IsHeld p.holders) (IsHeld after) (assign holder_id found) p.levels
      (λ l h.
        assign-IsHeld p.holders after holder_id org_id found l kept there
          (λ chosen. found-org org_id ids p.levels l (ap (exists_row (same_level l)) same ∙ chosen))
          h)
      held
