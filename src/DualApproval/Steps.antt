-- ===== src/DualApproval/Steps.antt =====
-- Each change to the table of requests keeps the rule of two persons.
use cerradura_magnetica.Prelude.{
  ℕ, suc, ◌+◌, ◌<◌, ◌≡◌, ◌⊎◌, refl, subst, ap, ◌∙◌, Bool, true, false, String, List, [], ◌∷◌, ◌++◌,
  Option, none, some, arith, ◌==◌, ==_iff, Result, ok, All, All-append, All-imp, All-map_intro,
  All-select, map, row_count, row_count-append, row_count-select_le, Bool-cases, Option-cases, inl,
  inr,
}
use cerradura_magnetica.Models.Gateway.{DoorOpenRequest, rejected}
use cerradura_magnetica.Access.{listed}
use cerradura_magnetica.DualApproval.{
  Requests, new_request, create_request, reject, forget_user, without_user, active_pending,
}
use cerradura_magnetica.DualApproval.TwoPerson.{
  IsTwoPerson, World, Step, creates, approves, rejects, fails, reports, forgets, removes, Reach,
  here, next, has_id, IsClaimKept, IsKept, closed-IsKept,
}
use cerradura_magnetica.DualApproval.Claims.{fails-IsKept, reports-IsKept, claimed-IsKept}

ok_injective : {A : Type 0} {E : Type 0} {x y : A} → (◌≡◌ {A = Result E A} (ok x) (ok y)) → x ≡ y
ok_injective h = cc

created_rows :
    (w : World) (seen : List DoorOpenRequest) (org door controller user : ℕ)
    (reason : Option String) (ttl now : ℕ) (made : Requests × DoorOpenRequest)
    → create_request seen w.db org door controller user reason ttl now ≡ ok made
    → (record {
      rows = w.db.rows ++ new_request w.db.next_id org door controller user reason (now + ttl) ∷ [];
      next_id = suc w.db.next_id;
    })
      ≡ made.0
unfolding create_request active_pending
created_rows w seen org door controller user reason ttl now made h =
    elim (Option-cases (active_pending seen org door now)) [
      | inr (r, waits) ↦ absurd (ground (arith, waits, h))
      | inl free ↦
          let filled : ok (
            record {
              rows =
                  w.db.rows
                  ++ new_request w.db.next_id org door controller user reason (now + ttl) ∷ [];
              next_id = suc w.db.next_id;
            },
            new_request w.db.next_id org door controller user reason (now + ttl),
          )
              ≡ ok made =
            rw (free, create_request) at h in
          let same = ok_injective filled in ap (λ (x : Requests × DoorOpenRequest). x.0) same
    ]

no_row :
    (n : ℕ) (rows : List DoorOpenRequest) → All (λ r. r.id < n) rows → row_count (has_id n) rows ≡ 0
no_row n [] h = refl
no_row n (r ∷ rs) h =
    let less = h.0 in
    let rest = no_row n rs h.1 in
    let other : (r.id == n) ≡ false = ground (arith, less) in rw (other, rest) refl

added-IsKept :
    (w : World) (org door controller user : ℕ) (reason : Option String) (expires_at : ℕ)
    → IsKept w
    → IsKept (record w {
      db = record {
        rows =
            w.db.rows ++ new_request w.db.next_id org door controller user reason expires_at ∷ [];
        next_id = suc w.db.next_id;
      };
    })
added-IsKept w org door controller user reason expires_at h =
    let n = w.db.next_id in
    let row = new_request n org door controller user reason expires_at in
    record {
      two =
          All-append (IsTwoPerson w.gone) w.db.rows (row ∷ []) h.two
            (record { approver = λ e. cc; distinct = λ a e. cc }, tt);
      keyed = λ i.
          let one = h.keyed i in
          let split = row_count-append (has_id i) w.db.rows (row ∷ []) in
          elim (Bool-cases (n == i)) [
            | inr other ↦ rw split (rw other (omega (arith, one)))
            | inl own ↦
                let equal = (==_iff n i).0 own in
                let none_yet : row_count (has_id i) w.db.rows ≡ 0 =
                  subst (λ k. row_count (has_id k) w.db.rows ≡ 0) equal
                    (no_row n w.db.rows h.fresh) in
                rw split (rw (own, none_yet) (omega arith))
          ];
      fresh =
          All-append (λ r. r.id < suc n) w.db.rows (row ∷ [])
            (All-imp (λ r. r.id < n) (λ r. r.id < suc n) w.db.rows (λ r k. omega (arith, k))
              h.fresh)
            (omega arith, tt);
      kept =
          All-append (IsClaimKept w.claims) w.db.rows (row ∷ []) h.kept
            (λ l. let less = h.used n l in absurd (omega (arith, less)), tt);
      used = λ i l. let less = h.used i l in omega (arith, less);
    }

without_user-back : (user : ℕ) (o : Option ℕ) (a : ℕ) → without_user user o ≡ some a → o ≡ some a
without_user-back user none a h = cc
without_user-back user (some id) a h = elim (Bool-cases (id == user)) [
  | inl own ↦ let clash : none ≡ some a = rw own at h in cc
  | inr other ↦ rw other at h
]

forget_approver :
    (user : ℕ) (gone : List ℕ) (r : DoorOpenRequest) (a : ℕ)
    → (r.approved_by_id ≡ some a) ⊎ ((r.approved_by_id ≡ none) × (listed gone a ≡ true))
    → (without_user user r.approved_by_id ≡ some a)
      ⊎ ((without_user user r.approved_by_id ≡ none) × (listed (user ∷ gone) a ≡ true))
forget_approver user gone r a (inr (nobody, l)) =
    inr (ap (without_user user) nobody, ground (arith, l))
forget_approver user gone r a (inl named) = elim (Bool-cases (a == user)) [
  | inr other ↦
      let stays : without_user user (some a) ≡ some a = rw other refl in
      inl (ap (without_user user) named ∙ stays)
  | inl own ↦
      let goes : without_user user (some a) ≡ none = rw own refl in
      inr (ap (without_user user) named ∙ goes, ground (arith, own))
]

forget_row :
    (user : ℕ) (gone : List ℕ) (r : DoorOpenRequest)
    → IsTwoPerson gone r
    → IsTwoPerson (user ∷ gone) (forget_user user r)
forget_row user gone r two = record {
  approver = λ e.
      let (a, (known, other)) = two.approver e in
      (
        a,
        (
          forget_approver user gone r a known,
          λ f. other (without_user-back user r.requested_by_id a f),
        ),
      );
  distinct = λ a e f.
      two.distinct a (without_user-back user r.approved_by_id a e)
        (without_user-back user r.requested_by_id a f);
}

row_count-map_same :
    {A : Type 0} (p : A → Bool) (f : A → A) (xs : List A)
    → ((x : A) → p (f x) ≡ p x)
    → row_count p (map f xs) ≡ row_count p xs
row_count-map_same p f [] same = refl
row_count-map_same p f (x ∷ xs) same = rw (same x, row_count-map_same p f xs same) refl

Step-IsKept : {w w' : World} → Step w w' → IsKept w → IsKept w'
unfolding reject
Step-IsKept (creates w seen org door controller user reason ttl now made e) h =
    subst (λ db. IsKept (record w { db = db }))
      (created_rows w seen org door controller user reason ttl now made e)
      (added-IsKept w org door controller user reason (now + ttl) h)
Step-IsKept (approves w request approver_id target now copies e) h =
    claimed-IsKept w request approver_id target now copies e h
Step-IsKept (rejects w request now) h = closed-IsKept w request.id now rejected refl h
Step-IsKept (fails w request won) h = fails-IsKept w request won h
Step-IsKept (reports w fx c id success now) h = reports-IsKept w fx c id success now h
Step-IsKept (forgets w user) h = record {
  two =
      All-map_intro (IsTwoPerson w.gone) (IsTwoPerson (user ∷ w.gone)) (forget_user user) w.db.rows
        (forget_row user w.gone) h.two;
  keyed = λ i.
      let one = h.keyed i in
      omega (arith, one, row_count-map_same (has_id i) (forget_user user) w.db.rows (λ r. refl));
  fresh =
      All-map_intro (λ r. r.id < w.db.next_id) (λ r. r.id < w.db.next_id) (forget_user user)
        w.db.rows (λ r k. k) h.fresh;
  kept =
      All-map_intro (IsClaimKept w.claims) (IsClaimKept w.claims) (forget_user user) w.db.rows
        (λ r k. k) h.kept;
  used = h.used;
}
Step-IsKept (removes w stays) h = record {
  two = All-select (IsTwoPerson w.gone) stays w.db.rows h.two;
  keyed = λ i.
      let one = h.keyed i in omega (arith, one, row_count-select_le (has_id i) stays w.db.rows);
  fresh = All-select (λ r. r.id < w.db.next_id) stays w.db.rows h.fresh;
  kept = All-select (IsClaimKept w.claims) stays w.db.rows h.kept;
  used = h.used;
}

reached-IsKept :
    {next_id : ℕ} {w : World}
    → Reach (record { db = record { rows = []; next_id = next_id }; gone = []; claims = [] }) w
    → IsKept w
reached-IsKept here = record {
  two = tt;
  keyed = λ i. omega arith;
  fresh = tt;
  kept = tt;
  used = λ i l. cc;
}
reached-IsKept (next r st) = Step-IsKept st (reached-IsKept r)

-- From the empty table, however creations, approvals, rejections, failed commands, reports of the bridge,
-- and deletions of users and of requests follow one another: every request that is dispatched, executed or
-- failed was approved by a user who is not its requester and whom it names, unless that user was
-- deleted, and no request names one user as both. An approval's copy of the request names the requester of its row, while that
-- user exists; an approval leads to one of the three statuses; and a request is marked as failed by a caller
-- whose claim of it was won.
pub Reach-IsTwoPerson :
    {next_id : ℕ} {w : World}
    → Reach (record { db = record { rows = []; next_id = next_id }; gone = []; claims = [] }) w
    → All (IsTwoPerson w.gone) w.db.rows
Reach-IsTwoPerson {next_id} {w} r = (reached-IsKept r).two
