-- ===== src/Db/Schema.antt =====
-- The tables of migrations/0001_init_auth_schema.sql that the program reads and writes, and the
-- errors of crates/db/src/lib.rs. Columns that no statement names (`description`, `ip`) are left
-- out, and so is the order of a table's rows: an insertion puts its row in front.
use rust_generic_user_backen.Base.{ℕ, String, Bool, Option, List, [], ◌∷◌}
use rust_generic_user_backen.Base.Result.{Result}
use rust_generic_user_backen.Core.User.{Uuid, OffsetDateTime}

pub record RoleRow : Type 0 where
  pub id : ℕ
  pub name : String

pub record PermissionRow : Type 0 where
  pub id : ℕ
  pub name : String

pub record RolePermissionRow : Type 0 where
  pub role_id : ℕ
  pub permission_id : ℕ

pub record UserRow : Type 0 where
  pub id : Uuid
  pub email : Option String
  pub password_hash : Option String
  pub display_name : Option String
  pub role_id : ℕ
  pub is_active : Bool
  pub email_verified : Bool
  pub created_at : OffsetDateTime
  pub updated_at : OffsetDateTime

pub record OauthIdentityRow : Type 0 where
  pub id : Uuid
  pub user_id : Uuid
  pub provider : String
  pub subject : String
  pub email : Option String
  pub raw_profile : String
  pub created_at : OffsetDateTime

pub record RefreshTokenRow : Type 0 where
  pub id : Uuid
  pub user_id : Uuid
  pub token_hash : String
  pub issued_at : OffsetDateTime
  pub expires_at : OffsetDateTime
  pub revoked_at : Option OffsetDateTime
  pub user_agent : Option String

-- A row of `email_verification_tokens` or of `password_reset_tokens`.
pub record OneTimeTokenRow : Type 0 where
  pub id : Uuid
  pub user_id : Uuid
  pub token_hash : String
  pub expires_at : OffsetDateTime
  pub used_at : Option OffsetDateTime
  pub created_at : OffsetDateTime

pub record UserPermissionRow : Type 0 where
  pub user_id : Uuid
  pub permission_id : ℕ
  pub granted : Bool

pub record Db : Type 0 where
  pub roles : List RoleRow
  pub permissions : List PermissionRow
  pub role_permissions : List RolePermissionRow
  pub users : List UserRow
  pub oauth_identities : List OauthIdentityRow
  pub refresh_tokens : List RefreshTokenRow
  pub email_verification_tokens : List OneTimeTokenRow
  pub password_reset_tokens : List OneTimeTokenRow
  pub user_permissions : List UserPermissionRow

-- What the program tells apart of a `sqlx::Error`, and the constraints that a statement meets.
pub data SqlxError : Type 0 where
  row_not_found unique_violation foreign_key_violation : SqlxError
  other : String → SqlxError

pub data DbError : Type 0 where
  sqlx : SqlxError → DbError
  migrate : String → DbError

-- A statement, from the database server's `now()`, the id that `gen_random_uuid()` draws and the
-- tables, to its answer and the tables after it.
abbrev pub Statement : Type 0 → Type 0
Statement A = OffsetDateTime → Uuid → Db → Result DbError A × Db

-- The rows that the migration inserts.
abbrev pub migrated : Db
migrated = record {
  roles =
      record { id = 1; name = "admin" }
      ∷ record { id = 2; name = "moderator" }
      ∷ record { id = 3; name = "user" }
      ∷ [];
  permissions =
      record { id = 1; name = "users.read" }
      ∷ record { id = 2; name = "users.manage" }
      ∷ record { id = 3; name = "users.assign_roles" }
      ∷ [];
  role_permissions =
      record { role_id = 1; permission_id = 1 }
      ∷ record { role_id = 1; permission_id = 2 }
      ∷ record { role_id = 1; permission_id = 3 }
      ∷ record { role_id = 2; permission_id = 1 }
      ∷ [];
  users = [];
  oauth_identities = [];
  refresh_tokens = [];
  email_verification_tokens = [];
  password_reset_tokens = [];
  user_permissions = [];
}
