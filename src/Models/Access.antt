-- ===== src/Models/Access.antt =====
-- backend/app/models/people.py and access.py: cardholders, credentials, access levels, schedules and
-- holidays. Card numbers, PINs and names are lists of character codes. A date is a day number, and a
-- time of day a number of seconds.
use cerradura_magnetica.Prelude.{ℕ, Bool, List, Option}

pub data CredentialType : Type 0 where
  card pin card_plus_pin : CredentialType

pub data DeniedReason : Type 0 where
  unknown_credential credential_inactive cardholder_inactive out_of_validity : DeniedReason
  no_access_level out_of_schedule holiday wrong_pin door_locked : DeniedReason

pub record Cardholder : Type 0 where
  pub id : ℕ
  pub organization_id : ℕ
  pub full_name : List ℕ
  pub valid_from : Option ℕ
  pub valid_to : Option ℕ
  pub is_active : Bool

pub record Credential : Type 0 where
  pub id : ℕ
  pub organization_id : ℕ
  pub cardholder : Cardholder
  pub type : CredentialType
  pub card_number : List ℕ
  pub pin : Option (List ℕ)
  pub is_active : Bool

pub record ScheduleInterval : Type 0 where
  pub day_of_week : ℕ
  pub start_time : ℕ
  pub end_time : ℕ

pub record Schedule : Type 0 where
  pub id : ℕ
  pub allow_on_holidays : Bool
  pub intervals : List ScheduleInterval

pub record DoorRule : Type 0 where
  pub door_id : ℕ
  pub schedule_id : Option ℕ

pub record AccessLevel : Type 0 where
  pub id : ℕ
  pub organization_id : ℕ
  pub cardholder_ids : List ℕ
  pub door_rules : List DoorRule

pub record Holiday : Type 0 where
  pub organization_id : ℕ
  pub date : ℕ
