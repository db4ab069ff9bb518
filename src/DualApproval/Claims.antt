-- ===== src/DualApproval/Claims.antt =====
-- What an approval, a failed command and a report of the bridge keep of the rule of two persons.
use cerradura_magnetica.Prelude.{
  ℕ, ◌<◌, ◌≡◌, ◌≢◌, ◌⊎◌, refl, sym, subst, ap, ◌∙◌, Bool, true, false, List, ◌∷◌, Option, none,
  some, arith, leb, ◌==◌, ==_iff, holds, All, All-update_rows_to, All-imp, All_zip, update_rows,
  find_row, row_count, find_row-only, row_count-some, row_count-only, Bool-cases, Option-cases, inl,
  inr,
}
use cerradura_magnetica.Models.Gateway.{
  DoorOpenRequest, RequestStatus, executed, expired, failed, is_pending, is_dispatched,
  GatewayCommand,
}
use cerradura_magnetica.Access.{listed}
use cerradura_magnetica.DualApproval.{claimable, approve_row, claim_for_approval, mark_failed}
use cerradura_magnetica.Effects.{Effects, finalize_dual_approval}
use cerradura_magnetica.DualApproval.TwoPerson.{
  is_approved, IsTwoPerson, World, with_rows, reported, IsCopy, claimed, has_id, IsClaimKept,
  IsKept, updated-IsKept, resolved_row, closed-IsKept,
}

-- The rows of one request are approved when its claim was won.
resolved-IsKept :
    (w : World) (id : ℕ) (s : RequestStatus) (t : DoorOpenRequest → Option ℕ)
    → is_approved s ≡ true
    → All (λ r. has_id id r ≡ true → is_approved r.status ≡ true) w.db.rows
    → IsKept w
    → IsKept (
        with_rows w
          (update_rows (has_id id) (λ r. record r { status = s; resolved_at = t r }) w.db.rows))
resolved-IsKept w id s t e approved h =
    updated-IsKept w (has_id id) (λ r. record r { status = s; resolved_at = t r })
      (λ r. has_id id r ≡ true → is_approved r.status ≡ true) (λ r. refl)
      (λ r hit known two. resolved_row w.gone s (t r) r (known hit) two) (λ r hit known k l. e)
      approved h

pub fails-IsKept :
    (w : World) (request : DoorOpenRequest)
    → listed w.claims request.id ≡ true
    → IsKept w
    → IsKept (with_rows w (mark_failed w.db.rows request))
unfolding mark_failed
fails-IsKept w request won h =
    resolved-IsKept w request.id failed (λ r. r.resolved_at) refl
      (All-imp (IsClaimKept w.claims) _ w.db.rows
        (λ r k hit.
          k (subst (λ n. listed w.claims n ≡ true) (sym ((==_iff r.id request.id).0 hit)) won))
        h.kept)
      h

dispatched_approved : (s : RequestStatus) → is_dispatched s ≡ true → is_approved s ≡ true
dispatched_approved s h = ground arith

pub reports-IsKept :
    (w : World) (fx : Effects) (c : GatewayCommand) (id : ℕ) (success : Bool) (now : ℕ)
    → IsKept w
    → IsKept (with_rows w (reported w fx c id success now))
unfolding finalize_dual_approval
reports-IsKept w fx c id success now h = elim (Option-cases (find_row (has_id id) w.db.rows)) [
  | inl absent ↦ rw (absent, reported, finalize_dual_approval) h
  | inr (req, found) ↦ elim (Bool-cases (is_dispatched req.status)) [
    | inr settled ↦ rw (found, reported, finalize_dual_approval, settled) h
    | inl waits ↦
        let approved : All (λ r. has_id id r ≡ true → is_approved r.status ≡ true) w.db.rows =
          All-imp (λ r. has_id id r ≡ true → r ≡ req) _ w.db.rows
            (λ r only hit.
              ap (λ (x : DoorOpenRequest). is_approved x.status) (only hit)
              ∙ dispatched_approved req.status waits)
            (find_row-only (has_id id) w.db.rows (h.keyed id) found) in
        let kept = λ (s : RequestStatus) (e : is_approved s ≡ true).
          resolved-IsKept w id s (λ _. some now) e approved h in
        elim (Bool-cases success) [
          | inl good ↦
              rw (found, reported, finalize_dual_approval, waits, good) (kept executed refl)
          | inr bad ↦ rw (found, reported, finalize_dual_approval, waits, bad) (kept failed refl)
        ]
  ]
]

elsewhere :
    (a i : ℕ) (claims : List ℕ)
    → (i == a) ≡ false
    → listed (a ∷ claims) i ≡ true
    → listed claims i ≡ true
elsewhere a i claims h l = ground (arith, h, l)

-- The claim is either won, and then every row of the request is approved by it, or it leaves the rows of
-- the requests that were won before.
won-IsClaimKept :
    (w : World) (request : DoorOpenRequest) (approver_id now : ℕ) (target : RequestStatus)
    → is_approved target ≡ true
    → All (λ r. has_id request.id r ≡ true → claimable request.id now r ≡ true) w.db.rows
    → IsKept w
    → All
        (IsClaimKept (request.id ∷ w.claims))
        (update_rows (claimable request.id now) (approve_row approver_id target now) w.db.rows)
won-IsClaimKept w request approver_id now target e met h =
    All-update_rows_to
      (λ r.
        (has_id request.id r ≡ true → claimable request.id now r ≡ true) × IsClaimKept w.claims r)
      (IsClaimKept (request.id ∷ w.claims)) (claimable request.id now)
      (approve_row approver_id target now) w.db.rows (λ r hit k l. e)
      (λ r miss k l. elim (Bool-cases (has_id request.id r)) [
        | inl own ↦ let hit = k.0 own in let clash : false ≡ true = rw miss at hit in cc
        | inr other ↦
            let less : listed w.claims r.id ≡ true = elsewhere request.id r.id w.claims other l in
            k.1 less
      ])
      (All_zip _ (IsClaimKept w.claims) w.db.rows met h.kept)

not_requester :
    (o o' : Option ℕ) (a : ℕ) → holds o (λ u. u == a) ≡ false → (o' ≡ o) ⊎ (o' ≡ none) → o' ≢ some a
not_requester o o' a h (inr gone) e = cc
not_requester none o' a h (inl same) e = cc
not_requester (some u) o' a h (inl same) e = let equal : u ≡ a = cc in ground (arith, h, equal)

approved_row :
    (gone : List ℕ) (request r : DoorOpenRequest) (approver_id now : ℕ) (target : RequestStatus)
    → holds request.requested_by_id (λ u. u == approver_id) ≡ false
    → claimable request.id now r ≡ true
    → IsCopy request r
    → IsTwoPerson gone (approve_row approver_id target now r)
approved_row gone request r approver_id now target other hit copy =
    let same : r.id ≡ request.id = ground (arith, hit) in
    let two =
      not_requester request.requested_by_id r.requested_by_id approver_id other (copy same) in
    record {
      approver = λ _. (approver_id, (inl refl, two));
      distinct = λ a e f. let equal : approver_id ≡ a = cc in two (f ∙ ap some (sym equal));
    }

pub claimed-IsKept :
    (w : World) (request : DoorOpenRequest) (approver_id : ℕ) (target : RequestStatus) (now : ℕ)
    → All (IsCopy request) w.db.rows
    → is_approved target ≡ true
    → IsKept w
    → IsKept (claimed w request approver_id target now)
unfolding claim_for_approval
claimed-IsKept w request approver_id target now copies e h =
    elim (Bool-cases (holds request.requested_by_id (λ u. u == approver_id))) [
      | inl self ↦ rw (claimed, claim_for_approval, self) h
      | inr other ↦ elim (Bool-cases (is_pending request.status)) [
        | inr settled ↦ rw (claimed, claim_for_approval, other, settled) h
        | inl open' ↦ elim (Bool-cases (leb request.expires_at now)) [
          | inl late ↦
              rw (claimed, claim_for_approval, other, open', late)
                (closed-IsKept w request.id now expired refl h)
          | inr timely ↦
              let lost =
                updated-IsKept w (claimable request.id now) (approve_row approver_id target now)
                  (IsCopy request) (λ r. refl)
                  (λ r hit copy _.
                    approved_row w.gone request r approver_id now target other hit copy)
                  (λ r hit _ k l. e) copies h in
              elim (Bool-cases (row_count (claimable request.id now) w.db.rows == 1)) [
                | inr beaten ↦ rw (claimed, claim_for_approval, other, open', timely, beaten) lost
                | inl won ↦
                    let once = (==_iff (row_count (claimable request.id now) w.db.rows) 1).0 won in
                    let met =
                      row_count-only (has_id request.id) (claimable request.id now) w.db.rows
                        (λ r hit. ground (arith, hit)) (h.keyed request.id) once in
                    let (row, hit, known) =
                      row_count-some (claimable request.id now) (λ r. r.id < w.db.next_id) w.db.rows
                        once h.fresh in
                    rw (claimed, claim_for_approval, other, open', timely, won)
                      (record {
                        two = lost.two;
                        keyed = lost.keyed;
                        fresh = lost.fresh;
                        kept = won-IsClaimKept w request approver_id now target e met h;
                        used = λ i l. elim (Bool-cases (i == request.id)) [
                          | inl own ↦
                              let named : row.id ≡ request.id = ground (arith, hit) in
                              let equal = (==_iff i request.id).0 own in
                              omega (arith, known, named, equal)
                          | inr away ↦ h.used i (elsewhere request.id i w.claims away l)
                        ];
                      })
              ]
        ]
      ]
    ]
