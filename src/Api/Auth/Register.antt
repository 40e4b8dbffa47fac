-- ===== src/Api/Auth/Register.antt =====
-- Registration, of crates/api/src/routes/auth.rs. `RegisterPort` is the trait that the flow needs,
-- and `app_port` is its implementation for `AppState`.
pub mod Validated
pub mod Enrolled
pub mod Taken
pub mod Login
use rust_generic_user_backen.Base.{ℕ, String, false, Option, none, some}
use rust_generic_user_backen.Base.Int.{ℤ, pos, ◌+ℤ◌, mul_i64}
use rust_generic_user_backen.Base.Result.{Result, ok, err}
use rust_generic_user_backen.Base.Result
use rust_generic_user_backen.Core.Role.{Role, user}
use rust_generic_user_backen.Core.User.{Uuid, OffsetDateTime, User}
use rust_generic_user_backen.Core.Error.{AppError, from_validation_errors}
use rust_generic_user_backen.Auth.Password.{hash_password}
use rust_generic_user_backen.Auth.Jwt.{issue}
use rust_generic_user_backen.Auth.Tokens.{generate_refresh_token, hash_refresh_token}
use rust_generic_user_backen.Db.Schema.{DbError}
use rust_generic_user_backen.Db.Users.{UserWithSecret, create_user, find_by_email}
use rust_generic_user_backen.Db.RefreshTokens.{store_refresh_token}
use rust_generic_user_backen.Env.{Env}
use rust_generic_user_backen.App.{App, pure, lift, attempt, now_utc, db, ◌>>=◌, ◌>>◌}
use rust_generic_user_backen.Api.State.{AppState}
use rust_generic_user_backen.Api.Validate.{check_account}
use rust_generic_user_backen.Api.Auth.Tokens.{TokenPair, days, spawn_verification_email}

pub record RegisterReq : Type 0 where
  pub email : String
  pub password : String
  pub display_name : Option String

pub record RegisterPort : Type 0 where
  pub create_user : String → String → Option String → App AppError User
  pub store_refresh_token : Uuid → String → OffsetDateTime → App AppError Unit
  pub issue_access_token : Uuid → Role → App AppError String

module _ (env : Env) where
  unfoldable pub app_port : AppState → RegisterPort
  app_port state = record {
    create_user = λ email password_hash display_name. db env (
        create_user env (record {
          email = some email;
          password_hash = some password_hash;
          display_name = display_name;
          role = user;
          email_verified = false;
        }));
    store_refresh_token = λ user_id token_hash expires_at. do
      db env (store_refresh_token env user_id token_hash expires_at none)
      pure tt;
    issue_access_token = issue env state.jwt;
  }

  unfoldable pub register_user : RegisterPort → RegisterReq → ℤ → ℤ → App AppError TokenPair
  register_user port body access_ttl_min refresh_ttl_days = do
    lift (Result.map_err from_validation_errors (check_account env body.email body.password))
    phc ← hash_password env body.password
    created ← port.create_user body.email phc body.display_name
    access ← port.issue_access_token created.id created.role
    refresh ← generate_refresh_token env
    let hash = hash_refresh_token env refresh
    now ← now_utc env
    let expires_at = now +ℤ days refresh_ttl_days
    port.store_refresh_token created.id hash expires_at
    pure (record {
      access_token = access;
      refresh_token = refresh;
      access_expires_in = mul_i64 access_ttl_min (pos 60);
    })

  -- `if let Ok(user) = ... { if let Some(u) = user { let _ = spawn_verification_email(...) } }`
  unfoldable pub mail_if_found :
      AppState → String → Result DbError (Option UserWithSecret) → App AppError Unit
  mail_if_found state email (ok (some u)) = do
    attempt (spawn_verification_email env state u.user.id email)
    pure tt
  mail_if_found state email _ = pure tt

  -- 201 and the pair.
  unfoldable pub register : AppState → RegisterReq → App AppError (ℕ × TokenPair)
  unfolding mail_if_found
  register state body = do
    pair ←
        register_user (app_port state) body state.settings.auth.jwt_access_ttl_min
          state.settings.auth.jwt_refresh_ttl_days
    found ← attempt (find_by_email env body.email)
    mail_if_found state body.email found
    pure (201, pair)
