-- ===== src/DualApproval/TwoPerson.antt =====
-- No request is opened on the word of one person.
use cerradura_magnetica.Prelude.{
  ℕ, ◌≤◌, ◌<◌, ◌≡◌, ◌≢◌, ◌⊎◌, refl, ap, Bool, true, false, String, List, ◌∷◌, Option, none, some,
  arith, ◌==◌, ok, err, All, All-update_rows_to, All_zip, map, update_rows, select, row_count,
  row_count-update_rows_same,
}
use cerradura_magnetica.Models.Gateway.{
  DoorOpenRequest, RequestStatus, dispatched, executed, failed, GatewayCommand,
}
use cerradura_magnetica.Access.{listed}
use cerradura_magnetica.DualApproval.{
  Requests, create_request, still_pending, claim_for_approval, mark_failed, reject, forget_user,
}
use cerradura_magnetica.Effects.{Effects, finalize_dual_approval}

-- The statuses that only an approval leads to.
abbrev pub is_approved : RequestStatus → Bool
is_approved dispatched = true
is_approved executed = true
is_approved failed = true
is_approved _ = false

-- The user approved the request, and the row says so unless the user is gone.
abbrev pub Approves : List ℕ → DoorOpenRequest → ℕ → Type 0
Approves gone r a =
    ((r.approved_by_id ≡ some a) ⊎ ((r.approved_by_id ≡ none) × (listed gone a ≡ true)))
    × (r.requested_by_id ≢ some a)

-- An approved request has an approver, and the approver is not the requester.
pub record IsTwoPerson (gone : List ℕ) (r : DoorOpenRequest) : Type 0 where
  pub approver : is_approved r.status ≡ true → (a : ℕ) × Approves gone r a
  pub distinct : (a : ℕ) → r.approved_by_id ≡ some a → r.requested_by_id ≢ some a

-- The table of requests, the users that were deleted, and the requests whose approval some call has won.
pub record World : Type 0 where
  pub db : Requests
  pub gone : List ℕ
  pub claims : List ℕ

abbrev pub with_rows : World → List DoorOpenRequest → World
with_rows w rows = record w { db = record w.db { rows = rows } }

-- A copy of a request that a caller has loaded: whatever else has changed since, the requester has
-- not, unless that user was deleted.
abbrev pub IsCopy : DoorOpenRequest → DoorOpenRequest → Type 0
IsCopy request r =
    r.id ≡ request.id → (r.requested_by_id ≡ request.requested_by_id) ⊎ (r.requested_by_id ≡ none)

-- The world after a call of claim_for_approval.
abbrev pub claimed : World → DoorOpenRequest → ℕ → RequestStatus → ℕ → World
claimed w request approver_id target now =
    let (rows, result) = claim_for_approval w.db.rows request approver_id target now in
    record (with_rows w rows) {
      claims = elim result [ ok _ ↦ request.id ∷ w.claims | err _ ↦ w.claims ];
    }

-- The requests after the bridge's report on a command, beside whatever controllers and log.
abbrev pub reported : World → Effects → GatewayCommand → ℕ → Bool → ℕ → List DoorOpenRequest
reported w fx c id success now =
    (finalize_dual_approval (record fx { requests = w.db.rows }) c id success now).requests

-- Every change that the program makes to the table of requests: creation, the three endings of an
-- approval call, rejection, the failure of the command of a caller that has won its claim, the
-- bridge's report, the deletion of a user, and the deletion of requests with their door.
pub data Step : World → World → Type 0 where
  creates :
      (w : World) (seen : List DoorOpenRequest) (org door controller user : ℕ)
      (reason : Option String) (ttl now : ℕ) (made : Requests × DoorOpenRequest)
      → create_request seen w.db org door controller user reason ttl now ≡ ok made
      → Step w (record w { db = made.0 })
  approves :
      (w : World) (request : DoorOpenRequest) (approver_id : ℕ) (target : RequestStatus) (now : ℕ)
      → All (IsCopy request) w.db.rows
      → is_approved target ≡ true
      → Step w (claimed w request approver_id target now)
  rejects :
      (w : World) (request : DoorOpenRequest) (now : ℕ)
      → Step w (with_rows w (reject w.db.rows request now).0)
  fails :
      (w : World) (request : DoorOpenRequest)
      → listed w.claims request.id ≡ true
      → Step w (with_rows w (mark_failed w.db.rows request))
  reports :
      (w : World) (fx : Effects) (c : GatewayCommand) (id : ℕ) (success : Bool) (now : ℕ)
      → Step w (with_rows w (reported w fx c id success now))
  forgets :
      (w : World) (user : ℕ)
      → Step w (record (with_rows w (map (forget_user user) w.db.rows)) { gone = user ∷ w.gone })
  removes :
      (w : World) (stays : DoorOpenRequest → Bool) → Step w (with_rows w (select stays w.db.rows))

pub data Reach (start : World) : World → Type 0 where
  here : Reach start start
  next : {w w' : World} → Reach start w → Step w w' → Reach start w'

abbrev pub has_id : ℕ → DoorOpenRequest → Bool
has_id i r = r.id == i

abbrev pub IsClaimKept : List ℕ → DoorOpenRequest → Type 0
IsClaimKept claims r = listed claims r.id ≡ true → is_approved r.status ≡ true

-- What every reachable world keeps: the two persons, and beside them that an identifier is a key,
-- drawn in order, and that a request whose approval was won is approved.
pub record IsKept (w : World) : Type 0 where
  pub two : All (IsTwoPerson w.gone) w.db.rows
  pub keyed : (i : ℕ) → row_count (has_id i) w.db.rows ≤ 1
  pub fresh : All (λ r. r.id < w.db.next_id) w.db.rows
  pub kept : All (IsClaimKept w.claims) w.db.rows
  pub used : (i : ℕ) → listed w.claims i ≡ true → i < w.db.next_id

-- An UPDATE of the rows under `q`, which leaves the identifiers. `F` is known of every row.
pub updated-IsKept :
    (w : World) (q : DoorOpenRequest → Bool) (f : DoorOpenRequest → DoorOpenRequest)
    (F : DoorOpenRequest → Type 0)
    → ((r : DoorOpenRequest) → (f r).id ≡ r.id)
    → ((r : DoorOpenRequest) → q r ≡ true → F r → IsTwoPerson w.gone r → IsTwoPerson w.gone (f r))
    → ((r : DoorOpenRequest)
        → q r ≡ true
        → F r
        → IsClaimKept w.claims r
        → IsClaimKept w.claims (f r))
    → All F w.db.rows
    → IsKept w
    → IsKept (with_rows w (update_rows q f w.db.rows))
updated-IsKept w q f F same two kept known h = record {
  two =
      All-update_rows_to (λ r. F r × IsTwoPerson w.gone r) (IsTwoPerson w.gone) q f w.db.rows
        (λ r hit k. two r hit k.0 k.1) (λ r miss k. k.1)
        (All_zip F (IsTwoPerson w.gone) w.db.rows known h.two);
  keyed = λ i.
      let one = h.keyed i in
      omega (
        arith,
        one,
        row_count-update_rows_same (has_id i) q f w.db.rows (λ r. ap (λ n. n == i) (same r)),
      );
  fresh =
      All-update_rows_to (λ r. r.id < w.db.next_id) (λ r. r.id < w.db.next_id) q f w.db.rows
        (λ r hit k. omega (arith, k, same r)) (λ r miss k. k) h.fresh;
  kept =
      All-update_rows_to (λ r. F r × IsClaimKept w.claims r) (IsClaimKept w.claims) q f w.db.rows
        (λ r hit k. kept r hit k.0 k.1) (λ r miss k. k.1)
        (All_zip F (IsClaimKept w.claims) w.db.rows known h.kept);
  used = h.used;
}

-- A row that is approved when it is settled anew.
pub resolved_row :
    (gone : List ℕ) (s : RequestStatus) (t : Option ℕ) (r : DoorOpenRequest)
    → is_approved r.status ≡ true
    → IsTwoPerson gone r
    → IsTwoPerson gone (record r { status = s; resolved_at = t })
resolved_row gone s t r e two = record { approver = λ _. two.approver e; distinct = two.distinct }

-- A pending row that is closed without an approval.
pub closed_row :
    (gone : List ℕ) (s : RequestStatus) (t : Option ℕ) (r : DoorOpenRequest)
    → is_approved s ≡ false
    → IsTwoPerson gone r
    → IsTwoPerson gone (record r { status = s; resolved_at = t })
closed_row gone s t r e two = record { approver = λ h. cc; distinct = two.distinct }

pub pending_unclaimed :
    (id : ℕ) (claims : List ℕ) (r : DoorOpenRequest) (s : RequestStatus)
    → still_pending id r ≡ true
    → IsClaimKept claims r
    → listed claims r.id ≡ true
    → is_approved s ≡ true
pending_unclaimed id claims r s hit k l =
    let on : is_approved r.status ≡ true = k l in absurd (ground (arith, hit, on))

-- Rows under a test that only pending rows meet are closed without an approval.
pub closed-IsKept :
    (w : World) (id now : ℕ) (s : RequestStatus)
    → is_approved s ≡ false
    → IsKept w
    → IsKept (
        with_rows w (
          update_rows
            (still_pending id)
            (λ r. record r { status = s; resolved_at = some now })
            w.db.rows))
closed-IsKept w id now s e h =
    updated-IsKept w (still_pending id) (λ r. record r { status = s; resolved_at = some now })
      (IsTwoPerson w.gone) (λ r. refl) (λ r hit _ two. closed_row w.gone s (some now) r e two)
      (λ r hit _ k l. pending_unclaimed id w.claims r s hit k l) h.two h
