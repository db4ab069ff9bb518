-- ===== src/DualApproval/Tests.antt =====
-- A request for a critical door that one user makes and another approves.
use cerradura_magnetica.Prelude.{◌≤◌, ◌≡◌, refl, List, [], ◌∷◌, some, ok, arith, All, map, inl}
use cerradura_magnetica.Models.Gateway.{DoorOpenRequest, dispatched}
use cerradura_magnetica.DualApproval.{
  Requests, new_request, create_request, claim_for_approval, forget_user,
}
use cerradura_magnetica.DualApproval.TwoPerson.{
  IsTwoPerson, World, claimed, creates, approves, forgets, Reach, here, next,
}
use cerradura_magnetica.DualApproval.Steps.{Reach-IsTwoPerson}
use cerradura_magnetica.DualApproval.Races.{Move, successes, About, one_winner}

abbrev asked : DoorOpenRequest
asked = new_request 1 10 2 4 7 (some "delivery") 160

abbrev table : List DoorOpenRequest
table = asked ∷ []

abbrev approved : List DoorOpenRequest
approved = (claim_for_approval table asked 8 dispatched 120).0

abbrev no_requests : Requests
no_requests = record { rows = []; next_id = 1 }

abbrev one_request : Requests
one_request = record { rows = table; next_id = 2 }

created : create_request [] no_requests 10 2 4 7 (some "delivery") 60 100 ≡ ok (one_request, asked)
unfolding create_request
created = refl

abbrev empty : World
empty = record { db = no_requests; gone = []; claims = [] }

abbrev waiting : World
waiting = record { db = one_request; gone = []; claims = [] }

-- The approver, user 8, is deleted after the door was opened.
abbrev later : World
later = record {
  db = record { rows = map (forget_user 8) approved; next_id = 2 };
  gone = 8 ∷ [];
  claims = 1 ∷ [];
}

asked_then_approved : Reach empty later
unfolding claim_for_approval
asked_then_approved =
    next
      (next
        (next here
          (creates empty [] 10 2 4 7 (some "delivery") 60 100 (one_request, asked) created))
        (approves waiting asked 8 dispatched 120 ((λ h. inl refl), tt) refl))
      (forgets (claimed waiting asked 8 dispatched 120) 8)

Reach-IsTwoPerson_example : All (IsTwoPerson later.gone) later.db.rows
Reach-IsTwoPerson_example = Reach-IsTwoPerson {next_id = 1} {w = later} asked_then_approved

abbrev racers : List Move
racers =
    Move.approves asked 8 dispatched 120
    ∷ Move.approves asked 9 dispatched 121
    ∷ Move.rejects asked 122
    ∷ []

racers-About : All (About 1) racers
racers-About = ((refl, refl), ((refl, refl), (refl, tt)))

one_winner_example : successes table racers ≤ 1
one_winner_example = one_winner racers table 1 (omega arith) racers-About
