-- ===== src/Api.antt =====
-- What the endpoints share: the look-up of a row in the caller's organization (`get_or_404`,
-- backend/app/api/helpers.py), and their error answers. A handler that raises before it commits leaves
-- the tables as they were.
pub mod Dispatch
pub mod Credentials
pub mod Desk
pub mod Doors
pub mod Controllers
pub mod Permissions
pub mod People
pub mod Tests
use cerradura_magnetica.Prelude.{
  ℕ, ◌≡◌, inl, inr, List, none, some, Result, ok, err, ◌==◌, ==_iff, if◌then◌else◌, find_row,
  find_row-holds, Option-cases, Bool-cases,
}
use cerradura_magnetica.DualApproval.{DualApprovalError}

pub data ApiError : Type 0 where
  not_found card_taken integrity_error needs_dual_approval no_dual_approval : ApiError
  approval : DualApprovalError → ApiError

module _ {A : Type 0} (id_of org_of : A → ℕ) where
  unfoldable pub get_or_404 : List A → ℕ → ℕ → Result ApiError A
  get_or_404 rows obj_id org_id = elim (find_row (λ r. id_of r == obj_id) rows) [
    | none ↦ err not_found
    | some obj ↦ if org_of obj == org_id then ok obj else err not_found
  ]

  -- The row that was looked up has the identifier and belongs to the organization.
  pub get_or_404-eq-ok :
      (rows : List A) (obj_id org_id : ℕ) {obj : A}
      → get_or_404 rows obj_id org_id ≡ ok obj
      → (find_row (λ r. id_of r == obj_id) rows ≡ some obj)
        × (id_of obj ≡ obj_id)
        × (org_of obj ≡ org_id)
  unfolding get_or_404
  get_or_404-eq-ok rows obj_id org_id {obj} h =
      elim (Option-cases (find_row (λ r. id_of r == obj_id) rows)) [
        | inl absent ↦ let stuck : err not_found ≡ ok obj = rw (absent, get_or_404) at h in cc
        | inr (r, found) ↦
            let tested : (if org_of r == org_id then ok r else err not_found) ≡ ok obj =
              rw (found, get_or_404) at h in
            elim (Bool-cases (org_of r == org_id)) [
              | inr other ↦ let stuck : err not_found ≡ ok obj = rw other at tested in cc
              | inl own ↦
                  let taken : ok r ≡ ok obj = rw own at tested in
                  let same : r ≡ obj = cc in
                  rw (← same) (
                    found,
                    (==_iff (id_of r) obj_id).0
                        (find_row-holds (λ x. id_of x == obj_id) rows found),
                    (==_iff (org_of r) org_id).0 own,
                  )
            ]
      ]
