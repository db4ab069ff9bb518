-- ===== src/Outbox/Tests.antt =====
-- Two workers and a queue of two commands.
use cerradura_magnetica.Prelude.{
  ℕ, ◌+◌, ◌≤◌, ◌<◌, ◌≡◌, refl, true, List, [], ◌∷◌, none, some, ok, arith,
}
use cerradura_magnetica.Models.Gateway.{GatewayCommand, open_door, pending, failed}
use cerradura_magnetica.Outbox.{
  Outbox, new_command, enqueue, lease, acknowledge, settle, release_lease,
}
use cerradura_magnetica.Outbox.Claim.{Attempt, run, wins, WithinTerm, lease_exclusive}
use cerradura_magnetica.Outbox.Ack.{tries, retries_bounded, crashes}

abbrev opening : GatewayCommand
opening = new_command 1 10 4 open_door "open:1" none 2

abbrev queue : List GatewayCommand
queue = opening ∷ new_command 2 10 4 open_door "open:2" none 2 ∷ []

abbrev empty_outbox : Outbox
empty_outbox = record { commands = []; next_id = 1 }

abbrev first_call : Outbox × GatewayCommand
first_call = enqueue empty_outbox empty_outbox 10 4 open_door "open:1" none 2

-- The second worker comes while the first one's lease runs.
abbrev race : List Attempt
race =
    record { worker = "a"; now = 100; seconds = 60; id = 1 }
    ∷ record { worker = "b"; now = 130; seconds = 60; id = 1 }
    ∷ record { worker = "b"; now = 131; seconds = 60; id = 2 }
    ∷ []

race-WithinTerm : WithinTerm 150 race
race-WithinTerm =
    ((omega arith, omega arith), ((omega arith, omega arith), ((omega arith, omega arith), tt)))

lease_exclusive_example : wins 1 (run queue race).1 ≤ 1
lease_exclusive_example = lease_exclusive race queue 150 1 (omega arith) race-WithinTerm

abbrev taken : GatewayCommand
taken = lease "a" 100 60 opening

abbrev done : GatewayCommand
done = release_lease (settle taken true (some "opened") none 105)

done_ok : acknowledge taken "a" true (some "opened") none 105 ≡ ok done
unfolding acknowledge
done_ok = refl

retries_bounded_example :
    (0 + 1 < 2
      → ((tries 1 opening "a" (some "timeout") 100 60).status ≡ pending)
        × ((tries 1 opening "a" (some "timeout") 100 60).attempts ≡ 0 + 1))
    × (0 + 2 ≡ 2 → (tries 2 opening "a" (some "timeout") 100 60).status ≡ failed)
retries_bounded_example = retries_bounded 1 opening "a" (some "timeout") 100 60 refl

abbrev crashed : GatewayCommand × ℕ
crashed = crashes 5 "a" 60 (opening, 100)
