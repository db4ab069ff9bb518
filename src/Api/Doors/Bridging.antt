-- ===== src/Api/Doors/Bridging.antt =====
-- What the bridge's calls do to a queued command keeps what it opens and on whose word.
use mathlib.Core.Path.{subst}
use cerradura_magnetica.Prelude.{
  ℕ, ◌≡◌, sym, inl, inr, Bool, true, false, String, text_eq, List, [], ◌∷◌, Option, some, Result,
  ok, err, Result-cases, ◌==◌, if◌then◌else◌, leb, Bool-cases, update_rows, All, All-update_rows,
}
use cerradura_magnetica.Models.Gateway.{Door, GatewayCommand, pending, failed}
use cerradura_magnetica.Outbox.{
  OutboxError, Outbox, lease, leasable, lease_one, lease_each, claim, acknowledge, settle,
  release_lease, leased_by, is_terminal, token_required, not_leased, deliverable_ids,
}
use cerradura_magnetica.Bridge.{
  GatewayBridge, Platform, get_command, settle_command, acknowledge_command, claim_commands,
}
use cerradura_magnetica.Bridge.ExactlyOnce.{get_command-eq-ok}
use cerradura_magnetica.Api.Doors.Guarding.{IsGuarded, All-find_row}

lease_each-IsGuarded :
    (doors : List Door) (token : String) (now seconds : ℕ) (ids : List ℕ) (cs : List GatewayCommand)
    → All (IsGuarded doors) cs
    → All (IsGuarded doors) (lease_each cs token now seconds ids).0
unfolding lease_each lease_one
lease_each-IsGuarded doors token now seconds [] cs all = all
lease_each-IsGuarded doors token now seconds (id ∷ ids) cs all =
    lease_each-IsGuarded doors token now seconds ids
      (update_rows (leasable now id) (lease token now seconds) cs)
      (All-update_rows (IsGuarded doors) (IsGuarded doors) (leasable now id)
        (lease token now seconds) cs (λ c hit a _. a) all all)

claim-IsGuarded :
    (doors : List Door) (seen db : Outbox) (org : ℕ) (token : String) (cid : Option ℕ)
    (seconds limit now : ℕ) {db' : Outbox} {got : List GatewayCommand}
    → All (IsGuarded doors) db.commands
    → claim seen db org token cid seconds limit now ≡ ok (db', got)
    → All (IsGuarded doors) db'.commands
unfolding claim
claim-IsGuarded doors seen db org token cid seconds limit now {db'} {got} all h =
    elim (Bool-cases (text_eq token "")) [
      | inl blank ↦
          let stuck : ◌≡◌ {A = Result OutboxError (Outbox × List GatewayCommand)}
              (err token_required) (ok (db', got)) =
            rw (blank, claim) at h in
          cc
      | inr named ↦
          let ids = deliverable_ids seen.commands org cid now limit in
          let leased = (lease_each db.commands token now seconds ids).0 in
          let ran : ◌≡◌ {A = Result OutboxError (Outbox × List GatewayCommand)}
              (ok (record db { commands = leased }, _)) (ok (db', got)) =
            rw (named, claim) at h in
          let same : record db { commands = leased } ≡ db' = cc in
          subst (λ (x : Outbox). All (IsGuarded doors) x.commands) same
            (lease_each-IsGuarded doors token now seconds ids db.commands all)
    ]

settle-IsGuarded :
    (doors : List Door) (c : GatewayCommand) (success : Bool) (result error : Option String)
    (now : ℕ)
    → IsGuarded doors c
    → IsGuarded doors (settle c success result error now)
settle-IsGuarded doors c true result error now guarded = guarded
settle-IsGuarded doors c false result error now guarded =
    elim (Bool-cases (leb c.max_attempts c.attempts)) [
      | inl spent ↦
          subst
            (λ b. IsGuarded doors (
              if b
              then record c { status = failed; last_error = error; completed_at = some now }
              else record c { status = pending; last_error = error }))
            (sym spent) guarded
      | inr left ↦
          subst
            (λ b. IsGuarded doors (
              if b
              then record c { status = failed; last_error = error; completed_at = some now }
              else record c { status = pending; last_error = error }))
            (sym left) guarded
    ]

acknowledge-IsGuarded :
    (doors : List Door) (c : GatewayCommand) (token : String) (success : Bool)
    (result error : Option String) (now : ℕ) {c' : GatewayCommand}
    → IsGuarded doors c
    → acknowledge c token success result error now ≡ ok c'
    → IsGuarded doors c'
unfolding acknowledge
acknowledge-IsGuarded doors c token success result error now {c'} guarded h =
    elim (Bool-cases (is_terminal c.status)) [
      | inl over ↦
          let kept : ok c ≡ ok c' = rw (over, acknowledge) at h in
          let same : c ≡ c' = cc in subst (IsGuarded doors) same guarded
      | inr live ↦ elim (Bool-cases (leased_by token c)) [
        | inr other ↦ let stuck : err not_leased ≡ ok c' = rw (live, other, acknowledge) at h in cc
        | inl mine ↦
            let kept : ok (release_lease (settle c success result error now)) ≡ ok c' =
              rw (live, mine, acknowledge) at h in
            let same : release_lease (settle c success result error now) ≡ c' = cc in
            subst (IsGuarded doors) same (settle-IsGuarded doors c success result error now guarded)
      ]
    ]

pub acknowledge_command-IsGuarded :
    (doors : List Door) (p : Platform) (bridge : GatewayBridge) (id : ℕ) (token : String)
    (success : Bool) (result error : Option String) (now : ℕ)
    → All (IsGuarded doors) p.outbox.commands
    → All
        (IsGuarded doors)
        (acknowledge_command p bridge id token success result error now).0.outbox.commands
unfolding acknowledge_command settle_command
acknowledge_command-IsGuarded doors p bridge id token success result error now all =
    elim (Result-cases (get_command p.outbox.commands id bridge.organization_id)) [
      | inr (e, gone) ↦ rw (gone, acknowledge_command) all
      | inl (before, found) ↦
          elim (Result-cases (acknowledge before token success result error now)) [
            | inr (e, refused) ↦ rw (found, refused, acknowledge_command) all
            | inl (c, done) ↦
                let row =
                  (get_command-eq-ok p.outbox.commands id bridge.organization_id before found).0 in
                let guarded =
                  acknowledge-IsGuarded doors before token success result error now
                    (All-find_row (IsGuarded doors) (λ x. x.id == id) p.outbox.commands all row)
                    done in
                rw (found, done, acknowledge_command)
                  (All-update_rows (IsGuarded doors) (IsGuarded doors) (λ x. x.id == c.id) (λ _. c)
                    p.outbox.commands (λ x hit a _. guarded) all all)
          ]
    ]

pub claim_commands-IsGuarded :
    (doors : List Door) (seen : Outbox) (p : Platform) (bridge : GatewayBridge) (token : String)
    (cid : Option ℕ) (seconds limit now : ℕ)
    → All (IsGuarded doors) p.outbox.commands
    → All
        (IsGuarded doors)
        (claim_commands seen p bridge token cid seconds limit now).0.outbox.commands
unfolding claim_commands
claim_commands-IsGuarded doors seen p bridge token cid seconds limit now all =
    elim (Result-cases (claim seen p.outbox bridge.organization_id token cid seconds limit now)) [
      | inr (e, refused) ↦ rw (refused, claim_commands) all
      | inl ((db, got), done) ↦
          rw (done, claim_commands)
            (claim-IsGuarded doors seen p.outbox bridge.organization_id token cid seconds limit now
              all done)
    ]
