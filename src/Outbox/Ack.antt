-- ===== src/Outbox/Ack.antt =====
-- Acknowledgements: the outcome on every branch, the bound on retries, and what has no bound.
use cerradura_magnetica.Prelude.{
  ℕ, zero, suc, ◌+◌, ◌<◌, ◌≡◌, refl, Bool, true, false, String, text_eq_refl, Option, none, arith,
  ok, err, if◌then◌else◌, lt→ltb,
}
use cerradura_magnetica.Models.Gateway.{pending, failed, GatewayCommand}
use cerradura_magnetica.Outbox.{not_leased, is_terminal, deliverable, lease, acknowledge}

-- After an accepted acknowledgement every further one, from any worker and with any outcome, changes
-- nothing: a settled command is returned as it is, and one that went back to the queue refuses it.
pub acknowledge_twice :
    (c c' : GatewayCommand) (w w' : String) (s s' : Bool) (r r' e e' : Option String) (now now' : ℕ)
    → acknowledge c w s r e now ≡ ok c'
    → acknowledge c' w' s' r' e' now' ≡ (if is_terminal c'.status then ok c' else err not_leased)
unfolding acknowledge
acknowledge_twice c c' w w' s s' r r' e e' now now' h = ground arith

-- A worker takes the command under a lease, and reports a failure.
pub failed_try : GatewayCommand → String → Option String → ℕ → ℕ → GatewayCommand
failed_try c w e now seconds = elim (acknowledge (lease w now seconds c) w false none e now) [
  | ok c' ↦ c'
  | err _ ↦ c
]

module _ (c : GatewayCommand) (w : String) (e : Option String) (now seconds : ℕ) where
  failed_try_counted :
      ((failed_try c w e now seconds).attempts ≡ c.attempts + 1)
      × ((failed_try c w e now seconds).max_attempts ≡ c.max_attempts)
  unfolding failed_try acknowledge
  failed_try_counted = ground (arith, text_eq_refl w)

  failed_try_retried :
      c.attempts + 1 < c.max_attempts → (failed_try c w e now seconds).status ≡ pending
  unfolding failed_try acknowledge
  failed_try_retried h = ground (arith, text_eq_refl w)

  failed_try_exhausted :
      c.attempts + 1 ≡ c.max_attempts → (failed_try c w e now seconds).status ≡ failed
  unfolding failed_try acknowledge
  failed_try_exhausted h = ground (arith, text_eq_refl w)

-- `n` deliveries in a row, each leased and each reported as a failure.
pub tries : ℕ → GatewayCommand → String → Option String → ℕ → ℕ → GatewayCommand
tries zero c w e now seconds = c
tries (suc n) c w e now seconds = tries n (failed_try c w e now seconds) w e now seconds

-- A pending command that keeps failing is put back with its attempts counted as long as they are
-- fewer than the maximum, and is FAILED by the failure that reaches it.
pub retries_bounded :
    (n : ℕ) (c : GatewayCommand) (w : String) (e : Option String) (now seconds : ℕ)
    → c.status ≡ pending
    → (c.attempts + n < c.max_attempts
        → ((tries n c w e now seconds).status ≡ pending)
          × ((tries n c w e now seconds).attempts ≡ c.attempts + n))
      × (c.attempts + suc n ≡ c.max_attempts → (tries (suc n) c w e now seconds).status ≡ failed)
unfolding tries
retries_bounded zero c w e now seconds h =
    (λ _. (h, omega arith), λ full. failed_try_exhausted c w e now seconds (omega arith))
retries_bounded (suc n) c w e now seconds h = (
  λ room.
      let (pend, count) =
        (retries_bounded n (failed_try c w e now seconds) w e now seconds
            (failed_try_retried c w e now seconds (omega arith))).0
          (omega (arith, counted.0, counted.1)) in
      (pend, omega (arith, count, counted.0)),
  λ full.
      (retries_bounded n (failed_try c w e now seconds) w e now seconds
          (failed_try_retried c w e now seconds (omega arith))).1
        (omega (arith, counted.0, counted.1)),
)
  where
    counted :
        ((failed_try c w e now seconds).attempts ≡ c.attempts + 1)
        × ((failed_try c w e now seconds).max_attempts ≡ c.max_attempts)
    counted = failed_try_counted c w e now seconds

-- A worker that leases and never answers, `n` times, each lease taken just after the last ran out.
pub crashes : ℕ → String → ℕ → GatewayCommand × ℕ → GatewayCommand × ℕ
crashes zero w seconds (c, now) = (c, now)
crashes (suc n) w seconds (c, now) = crashes n w seconds (lease w now seconds c, now + seconds + 1)

-- Leases that run out are not held against the maximum: whatever it is, the command is deliverable
-- again, with every lease counted in its attempts.
pub crashes-deliverable :
    (n : ℕ) (w : String) (seconds : ℕ) (c : GatewayCommand) (now : ℕ)
    → deliverable now c ≡ true
    → let (c', now') = crashes n w seconds (c, now) in
      (deliverable now' c' ≡ true)
      × (c'.attempts ≡ c.attempts + n)
      × (c'.max_attempts ≡ c.max_attempts)
unfolding crashes
crashes-deliverable zero w seconds c now h = (h, omega arith, refl)
crashes-deliverable (suc n) w seconds c now h =
    let (d, a, m) =
      crashes-deliverable n w seconds (lease w now seconds c) (now + seconds + 1)
        (lt→ltb _ _ (omega arith)) in
    (d, omega (arith, a), m)
