-- ===== src/DualApproval/Creation.antt =====
-- One request at a time for a door.
use cerradura_magnetica.Prelude.{
  ℕ, ◌+◌, ◌≤◌, ◌<◌, ◌≡◌, true, String, [], ◌∷◌, ◌++◌, Option, none, ok, err, arith, inl, inr,
  Option-cases, find_row, row_count, row_count-append, row_count-find_row, row_count_mono,
}
use cerradura_magnetica.Models.Gateway.{DoorOpenRequest}
use cerradura_magnetica.DualApproval.{
  already_awaiting, Requests, is_active, new_request, create_request,
}

active_earlier :
    (org door now now' : ℕ) (r : DoorOpenRequest)
    → now ≤ now'
    → is_active org door now' r ≡ true
    → is_active org door now r ≡ true
active_earlier org door now now' r later h = ground arith

module _ (org door controller user : ℕ) (reason : Option String) (ttl now : ℕ) (db : Requests)
    (made : Requests × DoorOpenRequest)
    (created : create_request db.rows db org door controller user reason ttl now ≡ ok made) where
  made_fresh :
      (find_row (is_active org door now) db.rows ≡ none)
      × (made.0.rows
          ≡ db.rows ++ new_request db.next_id org door controller user reason (now + ttl) ∷ [])
  unfolding create_request
  made_fresh = elim (Option-cases (find_row (is_active org door now) db.rows)) [
    | inl absent ↦ (absent, ground (arith, absent))
    | inr (r, present) ↦ absurd (ground (arith, present))
  ]

  one_active :
      (now' : ℕ)
      → now ≤ now'
      → now' < now + ttl
      → row_count (is_active org door now') made.0.rows ≡ 1
  one_active now' later before =
      let (absent, same) = made_fresh in
      let idle : row_count (is_active org door now') db.rows ≡ 0 = omega (
        arith,
        row_count-find_row (is_active org door now) db.rows absent,
        row_count_mono (is_active org door now') (is_active org door now) db.rows
            (λ r h. active_earlier org door now now' r later h),
      ) in
      rw same (rw row_count-append (rw idle (ground arith)))

  -- A request that was created while no other caller was creating one is the door's only active
  -- request until its window closes, and every further creation for the door is refused until then.
  pub create_request_once :
      (controller' user' : ℕ) (reason' : Option String) (ttl' now' : ℕ)
      → now ≤ now'
      → now' < now + ttl
      → (row_count (is_active org door now') made.0.rows ≡ 1)
        × (create_request made.0.rows made.0 org door controller' user' reason' ttl' now'
            ≡ err already_awaiting)
  unfolding create_request
  create_request_once controller' user' reason' ttl' now' later before = (
    one_active now' later before,
    elim (Option-cases (find_row (is_active org door now') made.0.rows)) [
      | inl absent ↦
          absurd
            (omega (arith, row_count-find_row _ made.0.rows absent, one_active now' later before))
      | inr (r, present) ↦ rw (present, create_request)
    ],
  )
