-- ===== src/Db/People.antt =====
-- Users, what they hold, and what they did.
use troxe_host.Common.{ℕ, Bool, Option, List, Text}

pub record UserRow : Type 0 where
  pub id : Text
  pub username : Text
  pub email : Text
  pub password_hash : Text
  pub totp_secret : Option Text
  pub totp_enabled : Bool
  pub recovery_codes : List Text
  pub root_admin : Bool
  pub suspended : Bool
  pub last_login_at : Option ℕ
  pub last_login_ip : Option Text

-- A value of the `permissions` document: a flag, or an object of flags.
pub data Grant : Type 0 where
  flag : Bool → Grant
  group : List (Text × Bool) → Grant

abbrev pub Permissions : Type 0
Permissions = List (Text × Grant)

pub record ApiKeyRow : Type 0 where
  pub id : Text
  pub user_id : Text
  pub name : Text
  pub key_prefix : Text
  pub key_hash : Text
  pub permissions : Permissions
  pub expires_at : Option ℕ
  pub last_used_at : Option ℕ

pub record PreferenceRow : Type 0 where
  pub user_id : Text
  pub email_on_install : Option Bool
  pub email_on_crash : Option Bool
  pub email_on_remove : Option Bool
  pub email_on_api_key : Option Bool

pub record ActivityRow : Type 0 where
  pub actor_id : Text
  pub event : Text
  pub ip_address : Text
