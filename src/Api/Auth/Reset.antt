-- ===== src/Api/Auth/Reset.antt =====
-- Password recovery, of crates/api/src/routes/auth.rs. `PasswordResetPort` is the trait that the
-- two flows need, and `app_port` is its implementation for `AppState`.
pub mod Silent
pub mod Recovery
pub mod Refused
pub mod Succeeds
pub mod Login
pub mod Mailed
use mathlib.Core.Option
use rust_generic_user_backen.Base.{ℕ, String, Bool, not, Option, none, some, is_some, if◌then◌else◌}
use rust_generic_user_backen.Base.Int.{ℤ, pos, ◌+ℤ◌}
use rust_generic_user_backen.Base.Text.{◌<>◌}
use rust_generic_user_backen.Base.Result
use rust_generic_user_backen.Base.Result.{Result, ok, err}
use rust_generic_user_backen.Core.User.{Uuid, OffsetDateTime}
use rust_generic_user_backen.Core.Error.{AppError, bad_request, from_validation_errors}
use rust_generic_user_backen.Auth.Password.{hash_password}
use rust_generic_user_backen.Db.Users.{find_by_email, update_password_hash}
use rust_generic_user_backen.Db.RefreshTokens.{revoke_all_refresh_tokens}
use rust_generic_user_backen.Db.OneTimeTokens.{
  store_password_reset_token, consume_password_reset_token,
}
use rust_generic_user_backen.Env.{Env}
use rust_generic_user_backen.App.{App, pure, lift, attempt, ok_or, now_utc, db, spawn, ◌>>=◌, ◌>>◌}
use rust_generic_user_backen.Api.State.{AppState}
use rust_generic_user_backen.Api.Validate.{check_reset}
use rust_generic_user_backen.Api.Email.{password_reset_mail}
use rust_generic_user_backen.Api.Auth.Tokens.{hours, generate_verification_token, sha256_hex}

pub record ResetPasswordReq : Type 0 where
  pub token : String
  pub new_password : String

pub record PasswordResetPort : Type 0 where
  -- the user, and whether it has a password hash
  pub find_by_email_for_reset : String → App AppError (Option (Uuid × Bool))
  pub store_reset_token : Uuid → String → OffsetDateTime → App AppError Unit
  pub consume_reset_token : String → App AppError (Option Uuid)
  pub update_password : Uuid → String → App AppError Unit
  pub revoke_sessions : Uuid → App AppError Unit

module _ (env : Env) where
  unfoldable pub app_port : PasswordResetPort
  app_port = record {
    find_by_email_for_reset = λ email. do
      found ← db env (find_by_email env email)
      pure (Option.map (λ row. (row.user.id, is_some row.password_hash)) found);
    store_reset_token = λ user_id token_hash expires_at.
        db env (store_password_reset_token env user_id token_hash expires_at);
    consume_reset_token = λ token_hash. db env (consume_password_reset_token env token_hash);
    update_password = λ user_id phc. db env (update_password_hash env user_id phc);
    revoke_sessions = λ user_id. db env (revoke_all_refresh_tokens env user_id);
  }

  -- The branches of `request_password_reset` on the account that was found.
  unfoldable pub request_for :
      PasswordResetPort → ℤ → Option (Uuid × Bool) → App AppError (Option String)
  request_for port reset_ttl_hours none = pure none
  request_for port reset_ttl_hours (some (user_id, has_password)) =
      if not has_password then pure none else do
        token ← generate_verification_token env
        let hash = sha256_hex env token
        now ← now_utc env
        let expires_at = now +ℤ hours reset_ttl_hours
        port.store_reset_token user_id hash expires_at
        pure (some token)

  unfoldable pub request_password_reset :
      PasswordResetPort → String → ℤ → App AppError (Option String)
  unfolding request_for
  request_password_reset port email reset_ttl_hours = do
    found ← port.find_by_email_for_reset email
    request_for port reset_ttl_hours found

  unfoldable pub perform_password_reset : PasswordResetPort → ResetPasswordReq → App AppError Unit
  perform_password_reset port body = do
    lift (Result.map_err from_validation_errors (check_reset env body.new_password))
    let token_hash = sha256_hex env body.token
    consumed ← port.consume_reset_token token_hash
    user_id ← ok_or consumed (bad_request "invalid or expired token")
    phc ← hash_password env body.new_password
    port.update_password user_id phc
    port.revoke_sessions user_id
    pure tt

  -- `if let Ok(Some(token)) = ...`
  unfoldable pub mail_reset :
      AppState → String → Result AppError (Option String) → App AppError Unit
  mail_reset state email (ok (some token)) = spawn (
      password_reset_mail email
        (state.settings.http.public_url <> "/reset-password?token=" <> token))
  mail_reset state email _ = pure tt

  -- 204, whatever happens. The body is the e-mail address.
  unfoldable pub forgot_password : AppState → String → App AppError ℕ
  unfolding mail_reset
  forgot_password state email = do
    requested ← attempt (request_password_reset app_port email (pos 1))
    mail_reset state email requested
    pure 204

  -- 204
  unfoldable pub reset_password : ResetPasswordReq → App AppError ℕ
  reset_password body = do perform_password_reset app_port body; pure 204
