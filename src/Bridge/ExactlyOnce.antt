-- ===== src/Bridge/ExactlyOnce.antt =====
-- A settled command has had its effect once, and only its organization's bridge can settle it.
use mathlib.Core.Path.{subst}
use cerradura_magnetica.Prelude.{
  ℕ, ◌≡◌, ◌≢◌, refl, sym, ap, ◌∙◌, Bool, true, String, List, [], ◌∷◌, Option, some, ok, err, arith,
  ◌==◌, ==_iff, Bool-cases, inl, inr, Option-cases, Result-cases, find_row, update_rows,
  find_row-holds,
}
use cerradura_magnetica.Models.Gateway.{GatewayCommand}
use cerradura_magnetica.Outbox.{OutboxError, is_terminal, acknowledge}
use cerradura_magnetica.Bridge.{
  GatewayBridge, Platform, HttpError, outbox, not_found, get_command, settle_command,
  acknowledge_command,
}

find_updated :
    (cs : List GatewayCommand) (c : GatewayCommand) {old : GatewayCommand}
    → find_row (λ x. x.id == c.id) cs ≡ some old
    → find_row (λ x. x.id == c.id) (update_rows (λ x. x.id == c.id) (λ _. c) cs) ≡ some c
find_updated [] c h = cc
find_updated (x ∷ cs) c h = elim (Bool-cases (x.id == c.id)) [
  | inl hit ↦ let self : (c.id == c.id) ≡ true = (==_iff c.id c.id).1 refl in rw (hit, self)
  | inr miss ↦ rw miss (rw miss (find_updated cs c (rw miss at h)))
]

get_command_other :
    (cs : List GatewayCommand) (id org : ℕ) (c : GatewayCommand)
    → find_row (λ x. x.id == id) cs ≡ some c
    → c.organization_id ≢ org
    → get_command cs id org ≡ err not_found
unfolding get_command
get_command_other cs id org c found other =
    rw (found, get_command)
      (elim (Bool-cases (c.organization_id == org)) [
        | inl same ↦ absurd (other ((==_iff _ _).0 same))
        | inr no' ↦ rw no'
      ])

pub get_command_own :
    (cs : List GatewayCommand) (id org : ℕ) (c : GatewayCommand)
    → find_row (λ x. x.id == id) cs ≡ some c
    → c.organization_id ≡ org
    → get_command cs id org ≡ ok c
unfolding get_command
get_command_own cs id org c found own = rw (found, get_command) (ground arith)

-- What a found command is.
pub get_command-eq-ok :
    (cs : List GatewayCommand) (id org : ℕ) (c : GatewayCommand)
    → get_command cs id org ≡ ok c
    → (find_row (λ x. x.id == id) cs ≡ some c) × (c.id ≡ id) × (c.organization_id ≡ org)
unfolding get_command
get_command-eq-ok cs id org c h = elim (Option-cases (find_row (λ x. x.id == id) cs)) [
  | inl absent ↦ absurd (ground (arith, absent))
  | inr (d, found) ↦
      let same : d ≡ c = ground (arith, found) in
      (
        ground (arith, found),
        ground (arith, find_row-holds (λ x. x.id == id) cs found),
        ground (arith, found),
      )
]

acknowledge_keeps :
    (c c' : GatewayCommand) (w : String) (s : Bool) (r e : Option String) (now : ℕ)
    → acknowledge c w s r e now ≡ ok c'
    → (c'.id ≡ c.id)
      × (c'.organization_id ≡ c.organization_id)
      × (c'.type ≡ c.type)
      × (c'.payload ≡ c.payload)
unfolding acknowledge
acknowledge_keeps c c' w s r e now h = ground arith

acknowledge_terminal :
    (c : GatewayCommand) (w : String) (s : Bool) (r e : Option String) (now : ℕ)
    → is_terminal c.status ≡ true
    → acknowledge c w s r e now ≡ ok c
unfolding acknowledge
acknowledge_terminal c w s r e now t = rw t

-- Another organization's bridge gets "not found" for a command, and changes nothing.
pub acknowledge_command_scoped :
    (p : Platform) (bridge : GatewayBridge) (id : ℕ) (w : String) (s : Bool) (r e : Option String)
    (now : ℕ) (c : GatewayCommand)
    → find_row (λ x. x.id == id) p.outbox.commands ≡ some c
    → c.organization_id ≢ bridge.organization_id
    → acknowledge_command p bridge id w s r e now ≡ (p, err not_found)
unfolding acknowledge_command
acknowledge_command_scoped p bridge id w s r e now c found other = rw (
  get_command_other p.outbox.commands id bridge.organization_id c found other,
  acknowledge_command,
)

-- The parts of an accepted acknowledgement.
record Accepted (p p' : Platform) (bridge : GatewayBridge) (id : ℕ) (c' : GatewayCommand) (now : ℕ)
    : Type 0 where
  before : GatewayCommand
  found : find_row (λ x. x.id == id) p.outbox.commands ≡ some before
  before_id : before.id ≡ id
  own : before.organization_id ≡ bridge.organization_id
  same_id : c'.id ≡ before.id
  same_org : c'.organization_id ≡ before.organization_id
  settled : p' ≡ settle_command p bridge before c' now

module _ (p : Platform) (bridge : GatewayBridge) (id : ℕ) (w : String) (s : Bool)
    (r e : Option String) (now : ℕ) where
  call_missing :
      (x : HttpError)
      → get_command p.outbox.commands id bridge.organization_id ≡ err x
      → acknowledge_command p bridge id w s r e now ≡ (p, err x)
  unfolding acknowledge_command
  call_missing x g = rw (g, acknowledge_command)

  call_refused :
      (before : GatewayCommand) (x : OutboxError)
      → get_command p.outbox.commands id bridge.organization_id ≡ ok before
      → acknowledge before w s r e now ≡ err x
      → acknowledge_command p bridge id w s r e now ≡ (p, err (outbox x))
  unfolding acknowledge_command
  call_refused before x g a = rw (g, acknowledge_command) (rw (a, acknowledge_command))

  call_accepted :
      (before c : GatewayCommand)
      → get_command p.outbox.commands id bridge.organization_id ≡ ok before
      → acknowledge before w s r e now ≡ ok c
      → acknowledge_command p bridge id w s r e now ≡ (settle_command p bridge before c now, ok c)
  unfolding acknowledge_command
  call_accepted before c g a = rw (g, acknowledge_command) (rw (a, acknowledge_command))

  accepted :
      (p' : Platform) (c' : GatewayCommand)
      → acknowledge_command p bridge id w s r e now ≡ (p', ok c')
      → Accepted p p' bridge id c' now
  accepted p' c' h = elim (Result-cases (get_command p.outbox.commands id bridge.organization_id)) [
    | inr (x, g) ↦ absurd (cc (call_missing x g))
    | inl (before, g) ↦ elim (Result-cases (acknowledge before w s r e now)) [
      | inr (x, a) ↦ absurd (cc (call_refused before x g a))
      | inl (c, a) ↦
          let (found, before_id, own) =
            get_command-eq-ok p.outbox.commands id bridge.organization_id before g in
          let same : c ≡ c' = cc (call_accepted before c g a) in
          let (same_id, same_org, _, _) =
            acknowledge_keeps before c' w s r e now (a ∙ ap ok same) in
          record {
            before = before;
            found = found;
            before_id = before_id;
            own = own;
            same_id = same_id;
            same_org = same_org;
            settled = cc (call_accepted before c' g (a ∙ ap ok same));
          }
    ]
  ]

still_there :
    (cs : List GatewayCommand) (c : GatewayCommand) {id : ℕ} {old : GatewayCommand}
    → find_row (λ x. x.id == id) cs ≡ some old
    → c.id ≡ id
    → find_row (λ x. x.id == id) (update_rows (λ x. x.id == c.id) (λ _. c) cs) ≡ some c
still_there cs c {id = id} {old = old} h e =
    subst
      (λ n.
        find_row (λ x. x.id == n) cs ≡ some old
        → find_row (λ x. x.id == n) (update_rows (λ x. x.id == c.id) (λ _. c) cs) ≡ some c)
      e (find_updated cs c) h

settle_again :
    (p : Platform) (bridge : GatewayBridge) (c : GatewayCommand) (now : ℕ)
    → is_terminal c.status ≡ true
    → (settle_command p bridge c c now).fx ≡ p.fx
unfolding settle_command
settle_again p bridge c now t = rw t

-- A settled command is settled once: after the acknowledgement that made it terminal, a further one
-- by any bridge of the organization, with any outcome, returns the command as it stands and has no
-- effect on doors' requests, controllers or events.
pub effect_once :
    (p p' : Platform) (bridge bridge' : GatewayBridge) (id : ℕ) (w w' : String) (s s' : Bool)
    (r r' e e' : Option String) (now now' : ℕ) (c' : GatewayCommand)
    → acknowledge_command p bridge id w s r e now ≡ (p', ok c')
    → is_terminal c'.status ≡ true
    → bridge'.organization_id ≡ bridge.organization_id
    → ((acknowledge_command p' bridge' id w' s' r' e' now').1 ≡ ok c')
      × ((acknowledge_command p' bridge' id w' s' r' e' now').0.fx ≡ p'.fx)
unfolding settle_command
effect_once p p' bridge bridge' id w w' s s' r r' e e' now now' c' h t same =
    let k = accepted p bridge id w s r e now p' c' h in
    let there : find_row (λ x. x.id == id) p'.outbox.commands ≡ some c' =
      rw k.settled (still_there p.outbox.commands c' k.found (k.same_id ∙ k.before_id)) in
    let again =
      call_accepted p' bridge' id w' s' r' e' now' c' c'
        (get_command_own p'.outbox.commands id bridge'.organization_id c' there
          (k.same_org ∙ k.own ∙ sym same))
        (acknowledge_terminal c' w' s' r' e' now' t) in
    (rw again, rw again (settle_again p' bridge' c' now' t))
