-- ===== src/Api/CreateAdmin.antt =====
-- crates/api/src/commands/create_admin.rs. `CreateAdminPort` is the trait that the command needs,
-- and `pool_port` is its implementation for the connection pool.
use rust_generic_user_backen.Base.{String, true, none, some}
use rust_generic_user_backen.Base.Result
use rust_generic_user_backen.Core.Role.{admin}
use rust_generic_user_backen.Core.User.{User}
use rust_generic_user_backen.Core.Error.{AppError, from_validation_errors}
use rust_generic_user_backen.Auth.Password.{hash_password}
use rust_generic_user_backen.Db.Users
use rust_generic_user_backen.Env.{Env}
use rust_generic_user_backen.App.{App, lift, db, ◌>>=◌, ◌>>◌}
use rust_generic_user_backen.Api.Validate.{check_account}

pub record CreateAdminArgs : Type 0 where
  pub email : String
  pub password : String

pub record CreateAdminPort : Type 0 where
  pub create_user : String → String → App AppError User

module _ (env : Env) where
  unfoldable pub create_admin_user : CreateAdminPort → CreateAdminArgs → App AppError User
  create_admin_user port args = do
    lift (Result.map_err from_validation_errors (check_account env args.email args.password))
    hash ← hash_password env args.password
    port.create_user args.email hash

  unfoldable pub pool_port : CreateAdminPort
  pool_port = record {
    create_user = λ email password_hash. db env (
        Users.create_user env (record {
          email = some email;
          password_hash = some password_hash;
          display_name = none;
          role = admin;
          email_verified = true;
        }));
  }
