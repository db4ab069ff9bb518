-- ===== src/Api/Credentials.antt =====
-- backend/app/api/v1/cardholders.py: the credentials of a holder, added, changed and deleted. A body's
-- field that was not sent is `none`; explicit nulls, which the columns refuse, are left out but for the
-- PIN. Audit rows are left out.
use mathlib.Core.Path.{subst}
use cerradura_magnetica.Prelude.{
  ℕ, suc, ◌≡◌, refl, ap, ◌∙◌, Bool, true, false, not, ◌&&◌, String, List, [], ◌∷◌, ◌++◌, Option,
  none, some, arith, Result, ok, err, ◌==◌, ==_iff, if◌then◌else◌, select, find_row,
  find_row-update_rows, update_rows, exists_row,
}
use cerradura_magnetica.Models.Gateway.{Controller}
use cerradura_magnetica.Models.Access.{Cardholder, Credential, CredentialType}
use cerradura_magnetica.Access.{card_is}
use cerradura_magnetica.Outbox.{Outbox}
use cerradura_magnetica.Api.{
  ApiError, not_found, card_taken, integrity_error, get_or_404, get_or_404-eq-ok,
}
use cerradura_magnetica.Api.Dispatch.{
  revoke_card_from_boards, controller_ids, AreFresh, Reaches, revoke_each-Reaches,
}

pub record People : Type 0 where
  pub holders : List Cardholder
  pub credentials : List Credential
  pub next_id : ℕ
  pub controllers : List Controller
  pub outbox : Outbox

-- backend/app/schemas/people.py
pub record CredentialCreate : Type 0 where
  pub type : CredentialType
  pub card_number : List ℕ
  pub pin : Option (List ℕ)

pub record CredentialUpdate : Type 0 where
  pub is_active : Option Bool
  pub pin : Option (Option (List ℕ))

abbrev pub get_credential : List Credential → ℕ → ℕ → Result ApiError Credential
get_credential = get_or_404 (λ c. c.id) (λ c. c.organization_id)

abbrev pub new_credential : ℕ → ℕ → Cardholder → CredentialCreate → Credential
new_credential id organization_id holder body = record {
  id = id;
  organization_id = organization_id;
  cardholder = holder;
  type = body.type;
  card_number = body.card_number;
  pin = body.pin;
  is_active = true;
}

-- `seen` is the table at the look-up. A card that was taken since breaks the unique constraint, an
-- error that the handler does not catch.
unfoldable pub add_credential :
    List Credential → People → ℕ → ℕ → CredentialCreate → People × Result ApiError Credential
add_credential seen db org_id cardholder_id body =
    elim (get_or_404 (λ (h : Cardholder). h.id) (λ h. h.organization_id) db.holders cardholder_id
      org_id) [
        | err e ↦ (db, err e)
        | ok holder ↦
            if exists_row (card_is org_id body.card_number) seen
            then (db, err card_taken)
            else if exists_row (card_is org_id body.card_number) db.credentials
            then (db, err integrity_error)
            else let credential = new_credential db.next_id org_id holder body in
              (
                record db {
                  credentials = db.credentials ++ credential ∷ [];
                  next_id = suc db.next_id;
                },
                ok credential,
              )
      ]

abbrev pub or_old {ℓ} : {A : Type ℓ} → Option A → A → A
or_old none old = old
or_old (some new) old = new

abbrev pub apply_update : CredentialUpdate → Credential → Credential
apply_update body c = record c {
  is_active = or_old body.is_active c.is_active;
  pin = or_old body.pin c.pin;
}

abbrev pub revoke_if : Bool → Bool → People → ℕ → List ℕ → (ℕ → String) → Outbox
revoke_if revoked bridge_mode db org_id card_number uuids =
    let queued =
      revoke_card_from_boards bridge_mode db.controllers db.outbox org_id card_number uuids in
    if revoked then queued.0 else db.outbox

unfoldable pub update_credential :
    Bool
    → People
    → ℕ
    → ℕ
    → ℕ
    → CredentialUpdate
    → (ℕ → String)
    → People × Result ApiError Credential
update_credential bridge_mode db org_id cardholder_id credential_id body uuids =
    elim (get_credential db.credentials credential_id org_id) [
      | err e ↦ (db, err e)
      | ok c ↦
          if not (c.cardholder.id == cardholder_id)
          then (db, err not_found)
          else let c' = apply_update body c in
            (
              record db {
                credentials = update_rows (λ x. x.id == c.id) (apply_update body) db.credentials;
                outbox =
                    revoke_if (c.is_active && not c'.is_active) bridge_mode db org_id c.card_number
                      uuids;
              },
              ok c',
            )
    ]

unfoldable pub delete_credential :
    Bool → People → ℕ → ℕ → ℕ → (ℕ → String) → People × Result ApiError (Unit {0})
delete_credential bridge_mode db org_id cardholder_id credential_id uuids =
    elim (get_credential db.credentials credential_id org_id) [
      | err e ↦ (db, err e)
      | ok c ↦ if not (c.cardholder.id == cardholder_id) then (db, err not_found) else (
        record db {
          credentials = select (λ x. not (x.id == c.id)) db.credentials;
          outbox =
              (revoke_card_from_boards bridge_mode db.controllers db.outbox org_id c.card_number
                uuids).0;
        },
        ok tt,
      )
    ]

abbrev pub deactivation : Option (Option (List ℕ)) → CredentialUpdate
deactivation pin = record { is_active = some false; pin = pin }

absent_after :
    (id : ℕ) (cs : List Credential)
    → exists_row (λ x. x.id == id) (select (λ x. not (x.id == id)) cs) ≡ false
absent_after id [] = refl
absent_after id (c ∷ cs) = ground (arith, absent_after id cs)

module _ (db : People) (org holder id : ℕ) (uuids : ℕ → String) (c : Credential)
    (found : get_credential db.credentials id org ≡ ok c) (owner : c.cardholder.id ≡ holder)
    (fresh : AreFresh db.outbox org uuids (controller_ids db.controllers org)) where
  abbrev boards : List ℕ
  boards = controller_ids db.controllers org

  queue_Reaches :
      Reaches org c.card_number uuids boards
        (revoke_card_from_boards true db.controllers db.outbox org c.card_number uuids).0
  unfolding revoke_card_from_boards
  queue_Reaches = revoke_each-Reaches org c.card_number uuids boards db.outbox fresh

  owned : (c.cardholder.id == holder) ≡ true
  owned = (==_iff c.cardholder.id holder).1 owner

  own_id : c.id ≡ id
  own_id = (get_or_404-eq-ok (λ c. c.id) (λ c. c.organization_id) db.credentials id org found).1

  -- Deactivating an active card of the holder through the bridge, where the keys drawn for the
  -- controllers are unused and differ: the row that is looked up afterwards is inactive, and every
  -- controller of the organization has a waiting command to take the card off its board.
  pub deactivated_everywhere :
      (pin : Option (Option (List ℕ)))
      → c.is_active ≡ true
      → let (db', answer) = update_credential true db org holder id (deactivation pin) uuids in
        (answer ≡ ok (apply_update (deactivation pin) c))
        × (find_row (λ x. x.id == id) db'.credentials ≡ some (apply_update (deactivation pin) c))
        × Reaches org c.card_number uuids boards db'.outbox
  unfolding update_credential
  deactivated_everywhere pin active =
      let row : find_row (λ x. x.id == id) db.credentials ≡ some c =
        (get_or_404-eq-ok (λ c. c.id) (λ c. c.organization_id) db.credentials id org found).0 in
      let f : Credential → Credential = apply_update (deactivation pin) in
      let self : (c.id == c.id) ≡ true = (==_iff c.id c.id).1 refl in
      let touched =
        find_row-update_rows (λ x. x.id == id) (λ x. x.id == c.id) f db.credentials (λ x. refl)
          row in
      rw (found, update_credential)
        (rw owned
          (rw active (refl, touched ∙ ap (λ b. some (if b then f c else c)) self, queue_Reaches)))

  -- Deleting a card of the holder through the bridge, under such keys: no row of its identifier is
  -- left, and every controller of the organization has a waiting command to take the card off its
  -- board.
  pub deleted_everywhere :
      let (db', answer) = delete_credential true db org holder id uuids in
      (answer ≡ ok tt)
      × (exists_row (λ x. x.id == id) db'.credentials ≡ false)
      × Reaches org c.card_number uuids boards db'.outbox
  unfolding delete_credential
  deleted_everywhere =
      let gone : exists_row (λ x. x.id == id) (select (λ x. not (x.id == c.id)) db.credentials)
          ≡ false =
        subst
          (λ n.
            exists_row (λ x. x.id == n) (select (λ x. not (x.id == c.id)) db.credentials) ≡ false)
          own_id (absent_after c.id db.credentials) in
      rw (found, delete_credential) (rw owned (refl, gone, queue_Reaches))
