-- ===== src/Model/People.antt =====
-- The tables of backend/app/models.py on users, their roles and their browser sessions.
use sha.Model.Enums.{ResourceScope}
use sha.Base.{ℕ, String, Option, Bool, true, false}

pub data UserStatus : Type 0 where
  pending active disabled : UserStatus

abbrev pub user_is_active : UserStatus → Bool
user_is_active UserStatus.active = true
user_is_active _ = false

abbrev pub user_is_disabled : UserStatus → Bool
user_is_disabled disabled = true
user_is_disabled _ = false

pub record User : Type 0 where
  pub user_id : String
  pub status : UserStatus
  pub display_name : String
  pub email_snapshot : Option String
  pub last_login_at : Option ℕ
  pub disabled_at : Option ℕ
  pub created_at : ℕ
  pub updated_at : ℕ

pub record OidcIdentity : Type 0 where
  pub identity_id : String
  pub user_id : String
  pub issuer : String
  pub subject : String
  pub display_name_snapshot : String
  pub email_snapshot : Option String
  pub created_at : ℕ
  pub updated_at : ℕ
  pub last_seen_at : Option ℕ

-- `Role`
pub record RoleRow : Type 0 where
  pub role_id : String
  pub key : String
  pub name : String
  pub is_system : Bool
  pub created_at : ℕ
  pub updated_at : ℕ

pub record RolePermission : Type 0 where
  pub role_id : String
  pub permission : String

pub record UserRoleBinding : Type 0 where
  pub binding_id : String
  pub user_id : String
  pub role_id : String
  pub scope_type : ResourceScope
  pub client_id : Option String
  pub location_id : Option String
  pub created_by : String
  pub created_at : ℕ
  pub revoked_at : Option ℕ

pub record BrowserSession : Type 0 where
  pub session_id : String
  pub user_id : String
  pub identity_id : String
  pub token_hash : String
  pub hash_key_id : String
  pub authenticated_at : ℕ
  pub last_seen_at : ℕ
  pub idle_expires_at : ℕ
  pub absolute_expires_at : ℕ
  pub revoked_at : Option ℕ
  pub created_at : ℕ
  pub updated_at : ℕ
