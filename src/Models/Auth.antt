-- ===== src/Models/Auth.antt =====
-- backend/app/models/tenancy.py and auth_session.py: organizations, users, sessions and their
-- refresh-token generations.
use cerradura_magnetica.Prelude.{ℕ, Bool, String, Option}

pub data UserRole : Type 0 where
  super_admin admin operator viewer : UserRole

pub record Organization : Type 0 where
  pub id : ℕ
  pub is_active : Bool

pub record User : Type 0 where
  pub id : ℕ
  pub organization_id : Option ℕ
  pub role : UserRole
  pub is_active : Bool

pub record AuthSession : Type 0 where
  pub id : ℕ
  pub session_id : String
  pub user_id : ℕ
  pub issued_at : ℕ
  pub expires_at : ℕ
  pub last_used_at : Option ℕ
  pub revoked_at : Option ℕ
  pub revoked_reason : Option String

pub record AuthRefreshToken : Type 0 where
  pub id : ℕ
  pub auth_session_id : ℕ
  pub token_hash : String
  pub generation : ℕ
  pub issued_at : ℕ
  pub expires_at : ℕ
  pub used_at : Option ℕ
  pub revoked_at : Option ℕ
  pub replaced_by_id : Option ℕ
