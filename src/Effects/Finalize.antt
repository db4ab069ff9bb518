-- ===== src/Effects/Finalize.antt =====
-- A dispatched request is resolved once.
use cerradura_magnetica.Prelude.{
  ℕ, ◌≡◌, refl, ap, Bool, true, false, List, [], ◌∷◌, none, some, arith, ◌==◌, Bool-cases, inl, inr,
  Option-cases, find_row, update_rows,
}
use mathlib.Core.Option
use cerradura_magnetica.Models.Gateway.{DoorOpenRequest, GatewayCommand, is_dispatched}
use cerradura_magnetica.Effects.{Effects, resolve_row, finalize_dual_approval}

find_resolved :
    (rs : List DoorOpenRequest) (id : ℕ) (success : Bool) (now : ℕ) {req : DoorOpenRequest}
    → find_row (λ r. r.id == id) rs ≡ some req
    → find_row (λ r. r.id == id) (update_rows (λ r. r.id == id) (resolve_row success now) rs)
      ≡ some (resolve_row success now req)
find_resolved [] id success now h = cc
find_resolved (r ∷ rs) id success now h = elim (Bool-cases (r.id == id)) [
  | inl hit ↦ rw hit (rw hit (ap (λ o. Option.map (resolve_row success now) o) (rw hit at h)))
  | inr miss ↦ rw miss (rw miss (find_resolved rs id success now (rw miss at h)))
]

resolved_closed :
    (success : Bool) (now : ℕ) (r : DoorOpenRequest)
    → is_dispatched (resolve_row success now r).status ≡ false
resolved_closed true now r = refl
resolved_closed false now r = refl

module _ (fx : Effects) (c : GatewayCommand) (id : ℕ) (success : Bool) (now : ℕ) where
  finalize_missing :
      find_row (λ r. r.id == id) fx.requests ≡ none
      → finalize_dual_approval fx c id success now ≡ fx
  unfolding finalize_dual_approval
  finalize_missing h = rw (h, finalize_dual_approval)

  finalize_closed :
      (req : DoorOpenRequest)
      → find_row (λ r. r.id == id) fx.requests ≡ some req
      → is_dispatched req.status ≡ false
      → finalize_dual_approval fx c id success now ≡ fx
  unfolding finalize_dual_approval
  finalize_closed req h closed = rw (h, finalize_dual_approval) (rw closed)

  finalize_resolves :
      (req : DoorOpenRequest)
      → find_row (λ r. r.id == id) fx.requests ≡ some req
      → is_dispatched req.status ≡ true
      → (finalize_dual_approval fx c id success now).requests
        ≡ update_rows (λ r. r.id == id) (resolve_row success now) fx.requests
  unfolding finalize_dual_approval
  finalize_resolves req h open' = rw (h, finalize_dual_approval) (ground arith)

-- The bridge's report on a dual-approval request is applied once: whatever a second report says, it
-- changes neither the request nor the events.
pub finalize_dual_approval_twice :
    (fx : Effects) (c c' : GatewayCommand) (id : ℕ) (success success' : Bool) (now now' : ℕ)
    → finalize_dual_approval (finalize_dual_approval fx c id success now) c' id success' now'
      ≡ finalize_dual_approval fx c id success now
finalize_dual_approval_twice fx c c' id success success' now now' =
    elim (Option-cases (find_row (λ r. r.id == id) fx.requests)) [
      | inl absent ↦
          let first = finalize_missing fx c id success now absent in
          rw first (finalize_missing fx c' id success' now' absent)
      | inr (req, found) ↦ elim (Bool-cases (is_dispatched req.status)) [
        | inr closed ↦
            let first = finalize_closed fx c id success now req found closed in
            rw first (finalize_closed fx c' id success' now' req found closed)
        | inl open' ↦
            finalize_closed (finalize_dual_approval fx c id success now) c' id success' now'
              (resolve_row success now req)
              (rw (finalize_resolves fx c id success now req found open')
                (find_resolved fx.requests id success now found))
              (resolved_closed success now req)
      ]
    ]
