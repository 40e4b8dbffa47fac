-- ===== src/Api/Admin.antt =====
-- crates/api/src/routes/admin.rs. A handler is given the user that the extractor let through.
pub mod Paging
pub mod Authorized
pub mod Granted
pub mod Disabled
use rust_generic_user_backen.Base.{ℕ, String, Bool, List}
use rust_generic_user_backen.Base.Int.{ℤ, pos, min_i64}
use rust_generic_user_backen.Core.Role.{Role}
use rust_generic_user_backen.Core.User.{Uuid, User}
use rust_generic_user_backen.Core.Error.{AppError, database}
use rust_generic_user_backen.Auth.Permissions.{
  Permission, users_read, users_manage, users_assign_roles, require, load_permissions,
}
use rust_generic_user_backen.Db.Schema.{DbError, sqlx, migrate}
use rust_generic_user_backen.Db.Users
use rust_generic_user_backen.Db.Permissions.{upsert_permission}
use rust_generic_user_backen.Env.{Env}
use rust_generic_user_backen.App.{App, pure, lift, query, map_err, db, ◌>>=◌, ◌>>◌}
use rust_generic_user_backen.Api.Extract.{VerifiedUser}

pub record Page : Type 0 where
  pub limit : ℤ
  pub offset : ℤ

-- What serde fills in for a missing parameter.
abbrev pub default_page : Page
default_page = record { limit = pos 50; offset = pos 0 }

pub record GrantPermReq : Type 0 where
  pub permission : String
  pub granted : Bool

module _ (env : Env) where
  -- `load_permissions` and `require`, with which every handler begins
  unfoldable pub authorize : VerifiedUser → Permission → App AppError Unit
  authorize user p = do perms ← load_permissions env user.user_id; lift (require perms p)

  unfoldable pub list_users : VerifiedUser → Page → App AppError (List User)
  list_users user page = do
    authorize user users_read
    db env (Users.list_users env (min_i64 page.limit (pos 200)) page.offset)

  -- 204
  unfoldable pub set_role : VerifiedUser → Uuid → Role → App AppError ℕ
  set_role user id role = do
    authorize user users_assign_roles
    db env (Users.set_role env id role)
    pure 204

  -- 204
  unfoldable pub set_active : VerifiedUser → Uuid → Bool → App AppError ℕ
  set_active user id active = do
    authorize user users_manage
    db env (Users.set_active env id active)
    pure 204

  -- This handler prints the error of sqlx itself.
  raw_database : DbError → AppError
  raw_database (sqlx e) = database (env.sqlx_display e)
  raw_database (migrate m) = database m

  -- 204
  unfoldable pub grant_permission : VerifiedUser → Uuid → GrantPermReq → App AppError ℕ
  unfolding raw_database
  grant_permission user id body = do
    authorize user users_assign_roles
    map_err raw_database (query env (upsert_permission id body.permission body.granted))
    pure 204
