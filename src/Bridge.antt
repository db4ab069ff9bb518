-- ===== src/Bridge.antt =====
-- backend/app/api/v1/gateway_bridge.py: authentication of a bridge, and its claim and acknowledge
-- calls. `normalize_fingerprint` of the header and the hash are parameters: the first is text
-- handling of `str`, the second is `hashlib`.
pub mod ExactlyOnce
pub mod Tests
use cerradura_magnetica.Prelude.{
  ℕ, Bool, true, false, ◌&&◌, not, List, Option, none, some, String, text_eq, ◌==◌, if◌then◌else◌,
  find_row, update_rows, Result, ok, err,
}
use cerradura_magnetica.Models.Gateway.{CommandStatus, succeeded, GatewayCommand}
use cerradura_magnetica.Outbox.{Outbox, OutboxError, is_terminal, claim, acknowledge}
use cerradura_magnetica.Effects.{Effects, apply_outcome}

pub record GatewayBridge : Type 0 where
  pub id : ℕ
  pub organization_id : ℕ
  pub cert_fingerprint : String
  pub secret_hash : Option String
  pub is_active : Bool
  pub last_seen_at : Option ℕ

pub record Platform : Type 0 where
  pub outbox : Outbox
  pub fx : Effects
  pub bridges : List GatewayBridge

pub data HttpError : Type 0 where
  certificate_required unknown_bridge invalid_credentials not_found : HttpError
  outbox : OutboxError → HttpError

abbrev pub or_empty : Option String → String
or_empty none = ""
or_empty (some s) = s

module _ (normalize_fingerprint hash_token : String → String) where
  -- backend/app/core/security.py
  unfoldable pub verify_secret : String → String → Bool
  verify_secret plain hashed =
      if text_eq plain ""
      then false
      else if text_eq hashed ""
      then false
      else text_eq (hash_token plain) hashed

  unfoldable pub get_current_bridge :
      List GatewayBridge → Option String → Option String → Result HttpError GatewayBridge
  unfolding verify_secret
  get_current_bridge bridges cert_header secret_header =
      if text_eq (or_empty cert_header) ""
      then err certificate_required
      else elim (find_row
          (λ b. text_eq b.cert_fingerprint (normalize_fingerprint (or_empty cert_header)))
          bridges) [
            | none ↦ err unknown_bridge
            | some bridge ↦
                if not bridge.is_active
                then err unknown_bridge
                else if verify_secret (or_empty secret_header) (or_empty bridge.secret_hash)
                then ok bridge
                else err invalid_credentials
          ]

abbrev pub touch : List GatewayBridge → GatewayBridge → ℕ → List GatewayBridge
touch bridges bridge now =
    update_rows (λ b. b.id == bridge.id) (λ b. record b { last_seen_at = some now }) bridges

-- `get_or_404` in the organization of the bridge (backend/app/api/helpers.py).
unfoldable pub get_command : List GatewayCommand → ℕ → ℕ → Result HttpError GatewayCommand
get_command commands command_id org_id = elim (find_row (λ c. c.id == command_id) commands) [
  | none ↦ err not_found
  | some c ↦ if c.organization_id == org_id then ok c else err not_found
]

abbrev pub succeeded_now : CommandStatus → Bool
succeeded_now succeeded = true
succeeded_now _ = false

-- The rest of `acknowledge_command` once the outbox has accepted the outcome.
unfoldable pub settle_command :
    Platform → GatewayBridge → GatewayCommand → GatewayCommand → ℕ → Platform
settle_command p bridge before c now = record p {
  outbox = record p.outbox {
    commands = update_rows (λ x. x.id == c.id) (λ _. c) p.outbox.commands;
  };
  fx =
      if not (is_terminal before.status) && is_terminal c.status
      then apply_outcome p.fx c (succeeded_now c.status) now
      else p.fx;
  bridges = touch p.bridges bridge now;
}

unfoldable pub acknowledge_command :
    Platform
    → GatewayBridge
    → ℕ
    → String
    → Bool
    → Option String
    → Option String
    → ℕ
    → Platform × Result HttpError GatewayCommand
acknowledge_command p bridge command_id worker_token success result error now =
    elim (get_command p.outbox.commands command_id bridge.organization_id) [
      | err e ↦ (p, err e)
      | ok before ↦ elim (acknowledge before worker_token success result error now) [
        | err e ↦ (p, err (outbox e))
        | ok c ↦ (settle_command p bridge before c now, ok c)
      ]
    ]

unfoldable pub claim_commands :
    Outbox
    → Platform
    → GatewayBridge
    → String
    → Option ℕ
    → ℕ
    → ℕ
    → ℕ
    → Platform × Result HttpError (List GatewayCommand)
claim_commands seen p bridge worker_token controller_id lease_seconds limit now =
    elim (claim seen p.outbox bridge.organization_id worker_token controller_id lease_seconds limit
      now) [
        | err e ↦ (p, err (outbox e))
        | ok (db, commands) ↦
            (record p { outbox = db; bridges = touch p.bridges bridge now }, ok commands)
      ]
