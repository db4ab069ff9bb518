-- ===== src/DualApproval.antt =====
-- backend/app/services/dual_approval.py: the two-person rule for critical doors. As in the outbox, a
-- call that reads and then writes takes what it read (`seen`, or the `request` object that was
-- loaded) apart from the table on which its conditional UPDATE or its INSERT runs.
pub mod Creation
pub mod TwoPerson
pub mod Claims
pub mod Steps
pub mod Races
pub mod Tests
use cerradura_magnetica.Prelude.{
  ℕ, suc, ◌+◌, Bool, ◌&&◌, not, String, List, [], ◌∷◌, ◌++◌, Option, none, some, Result, ok, err,
  leb, ltb, ◌==◌, if◌then◌else◌, holds, find_row, update_rows, row_count,
}
use cerradura_magnetica.Models.Gateway.{
  DoorOpenRequest, RequestStatus, pending, rejected, expired, failed, is_pending, is_dispatched,
}

pub data DualApprovalError : Type 0 where
  already_awaiting self_approval no_longer_pending request_expired lost_race not_rejectable :
      DualApprovalError

abbrev pub status_code : DualApprovalError → ℕ
status_code self_approval = 403
status_code request_expired = 410
status_code _ = 409

pub record Requests : Type 0 where
  pub rows : List DoorOpenRequest
  pub next_id : ℕ

-- A PENDING request of the organization for the door, whose window is still open.
abbrev pub is_active : ℕ → ℕ → ℕ → DoorOpenRequest → Bool
is_active org_id door_id now r =
    (r.organization_id == org_id && r.door_id == door_id && is_pending r.status)
    && ltb now r.expires_at

unfoldable pub active_pending : List DoorOpenRequest → ℕ → ℕ → ℕ → Option DoorOpenRequest
active_pending rows org_id door_id now = find_row (is_active org_id door_id now) rows

abbrev pub new_request : ℕ → ℕ → ℕ → ℕ → ℕ → Option String → ℕ → DoorOpenRequest
new_request id org_id door_id controller_id requested_by_id reason expires_at = record {
  id = id;
  organization_id = org_id;
  door_id = door_id;
  controller_id = controller_id;
  requested_by_id = some requested_by_id;
  approved_by_id = none;
  status = pending;
  reason = reason;
  expires_at = expires_at;
  resolved_at = none;
}

-- `ttl` is the setting `dual_approval_ttl_seconds`.
unfoldable pub create_request :
    List DoorOpenRequest
    → Requests
    → ℕ
    → ℕ
    → ℕ
    → ℕ
    → Option String
    → ℕ
    → ℕ
    → Result DualApprovalError (Requests × DoorOpenRequest)
unfolding active_pending
create_request seen db org_id door_id controller_id requested_by_id reason ttl now =
    elim (active_pending seen org_id door_id now) [
      | some existing ↦ err already_awaiting
      | none ↦
          let request =
            new_request db.next_id org_id door_id controller_id requested_by_id reason
              (now + ttl) in
          ok (record { rows = db.rows ++ request ∷ []; next_id = suc db.next_id }, request)
    ]

abbrev pub still_pending : ℕ → DoorOpenRequest → Bool
still_pending id r = r.id == id && is_pending r.status

abbrev pub claimable : ℕ → ℕ → DoorOpenRequest → Bool
claimable id now r = still_pending id r && ltb now r.expires_at

-- `None if target_status == DISPATCHED else now`
abbrev pub resolution_time : RequestStatus → ℕ → Option ℕ
resolution_time target now = if is_dispatched target then none else some now

abbrev pub approve_row : ℕ → RequestStatus → ℕ → DoorOpenRequest → DoorOpenRequest
approve_row approver_id target now r = record r {
  approved_by_id = some approver_id;
  status = target;
  resolved_at = resolution_time target now;
}

abbrev pub expire_row : ℕ → DoorOpenRequest → DoorOpenRequest
expire_row now r = record r { status = expired; resolved_at = some now }

-- What was written stays written when an error is raised, so the table comes back beside it.
unfoldable pub claim_for_approval :
    List DoorOpenRequest
    → DoorOpenRequest
    → ℕ
    → RequestStatus
    → ℕ
    → List DoorOpenRequest × Result DualApprovalError (Unit {0})
claim_for_approval rows request approver_id target now =
    if holds request.requested_by_id (λ u. u == approver_id)
    then (rows, err self_approval)
    else if not (is_pending request.status)
    then (rows, err no_longer_pending)
    else if leb request.expires_at now
    then (update_rows (still_pending request.id) (expire_row now) rows, err request_expired)
    else (
      update_rows (claimable request.id now) (approve_row approver_id target now) rows,
      (if row_count (claimable request.id now) rows == 1 then ok tt else err lost_race),
    )

unfoldable pub mark_failed : List DoorOpenRequest → DoorOpenRequest → List DoorOpenRequest
mark_failed rows request =
    update_rows (λ r. r.id == request.id) (λ r. record r { status = failed }) rows

abbrev pub reject_row : ℕ → DoorOpenRequest → DoorOpenRequest
reject_row now r = record r { status = rejected; resolved_at = some now }

unfoldable pub reject :
    List DoorOpenRequest
    → DoorOpenRequest
    → ℕ
    → List DoorOpenRequest × Result DualApprovalError (Unit {0})
reject rows request now = (
  update_rows (still_pending request.id) (reject_row now) rows,
  (if row_count (still_pending request.id) rows == 1 then ok tt else err not_rejectable),
)

abbrev pub without_user : ℕ → Option ℕ → Option ℕ
without_user user none = none
without_user user (some id) = if id == user then none else some id

-- What the database does to the requests when a user is deleted: both references are set to null.
abbrev pub forget_user : ℕ → DoorOpenRequest → DoorOpenRequest
forget_user user r = record r {
  requested_by_id = without_user user r.requested_by_id;
  approved_by_id = without_user user r.approved_by_id;
}
