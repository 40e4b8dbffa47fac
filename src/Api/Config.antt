-- ===== src/Api/Config.antt =====
-- The settings of crates/api/src/config.rs.
pub mod Load
use rust_generic_user_backen.Base.{ℕ, String, Bool, Option, List}
use rust_generic_user_backen.Base.Int.{ℤ}

pub record Http : Type 0 where
  pub bind : String
  pub public_url : String
  pub request_timeout_secs : ℕ

pub record DbSettings : Type 0 where
  pub url : String
  pub max_connections : ℕ
  pub min_connections : ℕ
  pub acquire_timeout_secs : ℕ
  pub run_migrations_on_start : Bool

pub record GoogleAuth : Type 0 where
  pub client_id : String
  pub client_secret : String
  pub redirect_url : String

pub record Auth : Type 0 where
  pub jwt_secret : String
  pub jwt_access_ttl_min : ℤ
  pub jwt_refresh_ttl_days : ℤ
  pub password_min_length : ℕ
  pub google : GoogleAuth

pub record Cors : Type 0 where
  pub allowed_origins : List String

pub record Email : Type 0 where
  pub smtp_host : String
  pub smtp_port : ℕ
  pub smtp_username : String
  pub smtp_password : String
  pub from_email : String
  pub from_name : String

pub record Settings : Type 0 where
  pub app_env : String
  pub http : Http
  pub db : DbSettings
  pub auth : Auth
  pub cors : Cors
  pub email : Email

-- What the merged sources hold: a field with a default may be missing, and there is no `app_env`.
pub record RawDb : Type 0 where
  pub url : String
  pub max_connections : ℕ
  pub min_connections : Option ℕ
  pub acquire_timeout_secs : Option ℕ
  pub run_migrations_on_start : Option Bool

pub record RawSettings : Type 0 where
  pub http : Http
  pub db : RawDb
  pub auth : Auth
  pub cors : Cors
  pub email : Email

-- A source of the `config` crate, as the program describes it.
pub data Source : Type 0 where
  file : (name : String) (required : Bool) → Source
  environment : (prefix separator list_separator list_key : String) → Source
