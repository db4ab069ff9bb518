-- ===== src/Outbox/Claim.antt =====
-- Leases are exclusive, under every interleaving of the workers' conditional updates.
use cerradura_magnetica.Prelude.{
  ℕ, ◌+◌, ◌≤◌, ◌≡◌, refl, inl, inr, Bool, true, false, String, List, [], ◌∷◌, map, arith, ◌==◌,
  ==_iff, if◌then◌else◌, Bool-cases, All, update_rows, row_count, row_count-update_rows,
  row_count-update_rows_ne, row_count_mono,
}
use cerradura_magnetica.Models.Gateway.{GatewayCommand}
use cerradura_magnetica.Outbox.{lease, leasable, lease_one, lease_each}

-- One conditional update of some worker's claim.
pub record Attempt : Type 0 where
  pub worker : String
  pub now : ℕ
  pub seconds : ℕ
  pub id : ℕ

-- The updates in the order in which the database runs them, and the identifiers that were won.
pub run : List GatewayCommand → List Attempt → List GatewayCommand × List ℕ
run cs [] = (cs, [])
run cs (a ∷ as') =
    let (cs', won) = lease_one cs a.worker a.now a.seconds a.id in
    let (final, rest) = run cs' as' in (final, if won then a.id ∷ rest else rest)

abbrev pub wins : ℕ → List ℕ → ℕ
wins id xs = row_count (λ x. x == id) xs

-- The updates of one lease term: none after the horizon, and every lease reaches the horizon.
abbrev pub WithinTerm : ℕ → List Attempt → Type 0
WithinTerm horizon = All (λ a. (a.now ≤ horizon) × (horizon ≤ a.now + a.seconds))

-- One row under an update: a row that is leased is no longer leasable before the lease runs out.
row_taken :
    (c : GatewayCommand) (w : String) (now seconds horizon id : ℕ)
    → now ≤ horizon
    → horizon ≤ now + seconds
    → leasable now id c ≡ true
    → (leasable horizon id c ≡ true) × (leasable horizon id (lease w now seconds c) ≡ false)
row_taken c w now seconds horizon id h k l = ground arith

taken :
    (cs : List GatewayCommand) (w : String) (now seconds horizon id : ℕ)
    → now ≤ horizon
    → horizon ≤ now + seconds
    → row_count (leasable horizon id) (update_rows (leasable now id) (lease w now seconds) cs)
        + row_count (leasable now id) cs
      ≡ row_count (leasable horizon id) cs
taken cs w now seconds horizon id h k =
    row_count-update_rows (leasable horizon id) (leasable now id) (lease w now seconds) cs
      (λ c l. row_taken c w now seconds horizon id h k l)

row_other :
    (c : GatewayCommand) (w : String) (now seconds horizon id j : ℕ)
    → (id == j) ≡ false
    → leasable now id c ≡ true
    → (leasable horizon j c ≡ false) × (leasable horizon j (lease w now seconds c) ≡ false)
row_other c w now seconds horizon id j ne l = ground arith

-- An update for one identifier leaves the rows of another.
others :
    (cs : List GatewayCommand) (w : String) (now seconds horizon id j : ℕ)
    → (id == j) ≡ false
    → row_count (leasable horizon j) (update_rows (leasable now id) (lease w now seconds) cs)
      ≡ row_count (leasable horizon j) cs
others cs w now seconds horizon id j ne =
    row_count-update_rows_ne (leasable horizon j) (leasable now id) (lease w now seconds) cs
      (λ c l. row_other c w now seconds horizon id j ne l)

won_or_lost :
    (id : ℕ) (xs : List ℕ) (before now after : ℕ)
    → wins id xs ≤ after
    → after + now ≡ before
    → wins id (if now == 1 then id ∷ xs else xs) ≤ before
won_or_lost id xs before now after h e = ground arith

missed :
    (x id : ℕ) (b : Bool) (xs : List ℕ) (bound : ℕ)
    → (x == id) ≡ false
    → wins id xs ≤ bound
    → wins id (if b then x ∷ xs else xs) ≤ bound
missed x id true xs bound ne h = rw ne h
missed x id false xs bound ne h = h

wins-run-le :
    (as' : List Attempt) (cs : List GatewayCommand) (horizon id : ℕ)
    → WithinTerm horizon as'
    → wins id (run cs as').1 ≤ row_count (leasable horizon id) cs
unfolding run lease_one
wins-run-le [] cs horizon id h = omega arith
wins-run-le (a ∷ as') cs horizon id ((h, k), hs) =
    let cs' = update_rows (leasable a.now a.id) (lease a.worker a.now a.seconds) cs in
    elim (Bool-cases (a.id == id)) [
      | inl same ↦ rw (← (==_iff a.id id).0 same) (
          won_or_lost a.id (run cs' as').1 _ _ _ (wins-run-le as' cs' horizon a.id hs)
            (taken cs a.worker a.now a.seconds horizon a.id h k))
      | inr other ↦
          missed a.id id (row_count (leasable a.now a.id) cs == 1) (run cs' as').1 _ other (
            omega (
              arith,
              wins-run-le as' cs' horizon id hs,
              others cs a.worker a.now a.seconds horizon a.id id other,
            ))
    ]

-- Within a term of the leases, in which every update falls before an instant that every lease
-- reaches, one command of a table with unique identifiers is leased to at most one worker, once,
-- whatever workers interleave their updates and in whatever order.
pub lease_exclusive :
    (as' : List Attempt) (cs : List GatewayCommand) (horizon id : ℕ)
    → row_count (λ c. c.id == id) cs ≤ 1
    → WithinTerm horizon as'
    → wins id (run cs as').1 ≤ 1
lease_exclusive as' cs horizon id unique h = omega (
  arith,
  wins-run-le as' cs horizon id h,
  row_count_mono (leasable horizon id) (λ c. c.id == id) cs (λ c l. ground arith),
)

-- The loop of one claim is such a run, of that worker's updates alone.
pub lease_each-run :
    (ids : List ℕ) (cs : List GatewayCommand) (w : String) (now seconds : ℕ)
    → lease_each cs w now seconds ids
      ≡ run cs (map (λ id. record { worker = w; now = now; seconds = seconds; id = id }) ids)
unfolding lease_each run
lease_each-run [] cs w now seconds = refl
lease_each-run (id ∷ ids) cs w now seconds = rw (lease_each-run ids _ w now seconds)
