-- ===== src/Access/Swipe.antt =====
-- The event of a swipe: `process_swipe` of backend/app/services/access_engine.py, and `mask_card` of
-- backend/app/core/masking.py.
use mathlib.Core.Path.{ap₂}
use cerradura_magnetica.Prelude.{
  ℕ, ◌-◌, ◌<◌, ◌≡◌, refl, sym, ap, ◌∙◌, Bool, true, false, String, List, [], ◌∷◌, ◌++◌, Option,
  none, some, arith, ltb, ltb→lt, if◌then◌else◌, Bool-cases, inl, inr, length, drop, replicate,
}
use cerradura_magnetica.Models.Access.{
  DeniedReason, unknown_credential, credential_inactive, cardholder_inactive, out_of_validity,
  no_access_level, out_of_schedule, holiday, wrong_pin, door_locked,
}
use cerradura_magnetica.Models.Gateway.{
  Door, access_granted, access_denied, Part, lit, Json, null, word,
}
use cerradura_magnetica.Events.{EventLog, NewEvent, record_event}
use cerradura_magnetica.Access.{Directory, LocalTime, AccessDecision, is_empty}
use cerradura_magnetica.Access.Decision.{evaluate_access}

-- `card[-4:] if len(card) > 4 else ""`
abbrev pub tail_of : List ℕ → List ℕ
tail_of number = if ltb 4 (length number) then drop (length number - 4) number else []

unfoldable pub mask_card : List ℕ → List ℕ
mask_card number =
    if is_empty number
    then []
    else replicate (length number - length (tail_of number)) b'*' ++ tail_of number

abbrev pub reason_value : DeniedReason → String
reason_value unknown_credential = "unknown_credential"
reason_value credential_inactive = "credential_inactive"
reason_value cardholder_inactive = "cardholder_inactive"
reason_value out_of_validity = "out_of_validity"
reason_value no_access_level = "no_access_level"
reason_value out_of_schedule = "out_of_schedule"
reason_value holiday = "holiday"
reason_value wrong_pin = "wrong_pin"
reason_value door_locked = "door_locked"

abbrev pub reason_text : Option DeniedReason → String
reason_text none = "unknown"
reason_text (some r) = reason_value r

abbrev pub reason_json : Option DeniedReason → Json
reason_json none = null
reason_json (some r) = word (reason_value r)

-- `masked` is `mask_card(card_number)`.
abbrev pub swipe_message : AccessDecision → Door → List ℕ → List Part
swipe_message d door masked =
    if d.granted
    then (elim d.cardholder [
      | some holder ↦
          lit "Access granted to " ∷ Part.text holder.full_name ∷ lit " at " ∷ lit door.name ∷ []
      | none ↦ lit "Access granted at " ∷ lit door.name ∷ []
    ])
    else lit "Access denied to " ∷ (elim d.cardholder [
      | some holder ↦ Part.text holder.full_name ∷ []
      | none ↦ lit "card " ∷ Part.text masked ∷ []
    ])
      ++ (lit " at " ∷ lit door.name ∷ lit " (" ∷ lit (reason_text d.reason) ∷ lit ")" ∷ [])

abbrev pub swipe_event : ℕ → Door → List ℕ → AccessDecision → NewEvent
swipe_event organization_id door masked d = record {
  organization_id = organization_id;
  type = if d.granted then access_granted else access_denied;
  message = swipe_message d door masked;
  controller_id = some door.controller_id;
  door_id = some door.id;
  cardholder_id = elim d.cardholder [ none ↦ none | some holder ↦ some holder.id ];
  credential_id = elim d.credential [ none ↦ none | some c ↦ some c.id ];
  details = ("card_number", Json.text masked) ∷ ("reason", reason_json d.reason) ∷ [];
  external_id = none;
  occurred_at = none;
}

module _ (is_digit : ℕ → Bool) (zone : String → ℕ → Option LocalTime) (utc : ℕ → LocalTime) where
  unfoldable pub process_swipe :
      Directory
      → EventLog
      → ℕ
      → Door
      → Option String
      → List ℕ
      → Option (List ℕ)
      → ℕ
      → EventLog × (AccessDecision × ℕ)
  unfolding record_event
  process_swipe db log organization_id door timezone number code now =
      let decision =
        evaluate_access is_digit zone utc db organization_id door timezone number code now in
      let (log', event) =
        record_event log now (swipe_event organization_id door (mask_card number) decision) in
      (log', (decision, event.id))

-- Two card numbers of one length that end in the same four characters, if they are longer than four.
abbrev pub AreAlike : List ℕ → List ℕ → Type 0
AreAlike a b =
    (length a ≡ length b) × (4 < length a → drop (length a - 4) a ≡ drop (length b - 4) b)

tail_of-AreAlike : (a b : List ℕ) → AreAlike a b → tail_of a ≡ tail_of b
tail_of-AreAlike a b (same, ends) = elim (Bool-cases (ltb 4 (length a))) [
  | inl long ↦
      let long' : ltb 4 (length b) ≡ true = ap (ltb 4) (sym same) ∙ long in
      rw (long, long') (ends (ltb→lt 4 (length a) long))
  | inr short ↦
      let short' : ltb 4 (length b) ≡ false = ap (ltb 4) (sym same) ∙ short in
      rw (short, short') refl
]

is_empty-length : (a b : List ℕ) → length a ≡ length b → is_empty a ≡ is_empty b
is_empty-length [] [] h = refl
is_empty-length [] (y ∷ b) h = absurd (omega (arith, h))
is_empty-length (x ∷ a) [] h = absurd (omega (arith, h))
is_empty-length (x ∷ a) (y ∷ b) h = refl

mask_card-AreAlike : (a b : List ℕ) → AreAlike a b → mask_card a ≡ mask_card b
unfolding mask_card
mask_card-AreAlike a b alike =
    ap₂ (λ e t. if e then [] else t) (is_empty-length a b alike.0)
      (ap₂ (λ n t. replicate (n - length t) b'*' ++ t) alike.0 (tail_of-AreAlike a b alike))

module _ (is_digit : ℕ → Bool) (zone : String → ℕ → Option LocalTime) (utc : ℕ → LocalTime) where
  -- A swipe's event tells no more of the card than its length and, of a card longer than four
  -- characters, its last four: two cards alike in these, on which the same is decided, leave the same
  -- log and give the same answer.
  pub process_swipe_masked :
      (db : Directory) (log : EventLog) (org : ℕ) (door : Door) (timezone : Option String)
      (a b : List ℕ) (code : Option (List ℕ)) (now : ℕ)
      → AreAlike a b
      → evaluate_access is_digit zone utc db org door timezone a code now
        ≡ evaluate_access is_digit zone utc db org door timezone b code now
      → process_swipe is_digit zone utc db log org door timezone a code now
        ≡ process_swipe is_digit zone utc db log org door timezone b code now
  unfolding process_swipe record_event
  process_swipe_masked db log org door timezone a b code now alike same =
      ap₂
        (λ masked d.
          let (log', event) = record_event log now (swipe_event org door masked d) in
          (log', (d, event.id)))
        (mask_card-AreAlike a b alike) same
