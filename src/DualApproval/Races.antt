-- ===== src/DualApproval/Races.antt =====
-- Approvers and cancellations racing for one request: one of them at most takes it out of PENDING.
use cerradura_magnetica.Prelude.{
  ℕ, ◌+◌, ◌≤◌, ◌≡◌, false, List, [], ◌∷◌, Result, ok, err, arith, ◌==◌, if◌then◌else◌, All,
  row_count, row_count-update_rows,
}
use cerradura_magnetica.Models.Gateway.{DoorOpenRequest, RequestStatus, is_pending}
use cerradura_magnetica.DualApproval.{
  DualApprovalError, still_pending, claimable, approve_row, expire_row, reject_row,
  claim_for_approval, reject,
}

-- One call, with the request as its caller had loaded it.
pub data Move : Type 0 where
  approves : DoorOpenRequest → ℕ → RequestStatus → ℕ → Move
  rejects : DoorOpenRequest → ℕ → Move

pub step : List DoorOpenRequest → Move → List DoorOpenRequest × Result DualApprovalError (Unit {0})
step rows (approves request approver_id target now) =
    claim_for_approval rows request approver_id target now
step rows (rejects request now) = reject rows request now

abbrev pub won : Result DualApprovalError (Unit {0}) → ℕ
won (ok _) = 1
won (err _) = 0

-- How many of the calls succeed, in the order in which their updates run.
pub successes : List DoorOpenRequest → List Move → ℕ
successes rows [] = 0
successes rows (m ∷ ms) = let (rows', r) = step rows m in won r + successes rows' ms

-- The calls are about one request, and no approval has PENDING as its target.
abbrev pub About : ℕ → Move → Type 0
About id (approves request approver_id target now) = (request.id ≡ id) × (is_pending target ≡ false)
About id (rejects request now) = request.id ≡ id

one_win :
    (n m k : ℕ)
    → k + n ≡ m
    → won (if n == 1 then ok tt else err DualApprovalError.lost_race) + k ≤ m
one_win n m k e = ground arith

one_rejection :
    (n m k : ℕ)
    → k + n ≡ m
    → won (if n == 1 then ok tt else err DualApprovalError.not_rejectable) + k ≤ m
one_rejection n m k e = ground arith

claim_uses_one :
    (rows : List DoorOpenRequest) (request : DoorOpenRequest) (approver_id : ℕ)
    (target : RequestStatus) (now : ℕ)
    → is_pending target ≡ false
    → let (rows', r) = claim_for_approval rows request approver_id target now in
      won r + row_count (still_pending request.id) rows' ≤ row_count (still_pending request.id) rows
unfolding claim_for_approval
claim_uses_one rows request approver_id target now h = ground (
  arith,
  one_win (row_count (claimable request.id now) rows) (row_count (still_pending request.id) rows) _
      (row_count-update_rows (still_pending request.id) (claimable request.id now)
        (approve_row approver_id target now) rows (λ x l. ground arith)),
  row_count-update_rows (still_pending request.id) (still_pending request.id) (expire_row now) rows
      (λ x l. ground arith),
)

step_uses_one :
    (rows : List DoorOpenRequest) (m : Move) (id : ℕ)
    → About id m
    → won (step rows m).1 + row_count (still_pending id) (step rows m).0
      ≤ row_count (still_pending id) rows
unfolding step
step_uses_one rows (approves request approver_id target now) id (e, h) =
    rw (← e) (claim_uses_one rows request approver_id target now h)
step_uses_one rows (rejects request now) id e = rw (← e) (
    unfold reject in
    one_rejection _ _ _ (
      row_count-update_rows (still_pending request.id) (still_pending request.id) (reject_row now)
        rows (λ x l. ground arith)))

successes-le :
    (ms : List Move) (rows : List DoorOpenRequest) (id : ℕ)
    → All (About id) ms
    → successes rows ms ≤ row_count (still_pending id) rows
unfolding successes
successes-le [] rows id h = omega arith
successes-le (m ∷ ms) rows id h =
    omega (arith, step_uses_one rows m id h.0, successes-le ms (step rows m).0 id h.1)

-- Whatever approvals and rejections of one request race, each with a copy of the request as stale
-- as may be, at most one of them succeeds, where at most one pending row has the request's
-- identifier and no approval has PENDING as its target.
pub one_winner :
    (ms : List Move) (rows : List DoorOpenRequest) (id : ℕ)
    → row_count (still_pending id) rows ≤ 1
    → All (About id) ms
    → successes rows ms ≤ 1
one_winner ms rows id unique h = omega (arith, successes-le ms rows id h)
