-- ===== src/Api/Auth/VerifyEmail.antt =====
-- E-mail verification, of crates/api/src/routes/auth.rs.
pub mod Confirmed
use rust_generic_user_backen.Base.{ℕ, String, Option, none, some, if◌then◌else◌}
use rust_generic_user_backen.Core.Error.{AppError, unauthorized, bad_request}
use rust_generic_user_backen.Db.Users.{find_by_id, mark_email_verified}
use rust_generic_user_backen.Db.OneTimeTokens.{consume_email_verification_token}
use rust_generic_user_backen.Env.{Env}
use rust_generic_user_backen.App.{App, pure, attempt, ok_or, db, ◌>>=◌, ◌>>◌}
use rust_generic_user_backen.Api.State.{AppState}
use rust_generic_user_backen.Api.Extract.{AuthUser}
use rust_generic_user_backen.Api.Auth.Tokens.{sha256_hex, spawn_verification_email}

module _ (env : Env) where
  -- 200
  unfoldable pub verify_email : String → App AppError ℕ
  verify_email token = do
    let hash = sha256_hex env token
    consumed ← db env (consume_email_verification_token env hash)
    user_id ← ok_or consumed (bad_request "invalid or expired token")
    db env (mark_email_verified env user_id)
    pure 200

  unfoldable pub mail_if_known : AppState → AuthUser → Option String → App AppError Unit
  mail_if_known state auth none = pure tt
  mail_if_known state auth (some email) = do
    attempt (spawn_verification_email env state auth.user_id email)
    pure tt

  -- 204
  unfoldable pub resend_verification : AppState → AuthUser → App AppError ℕ
  unfolding mail_if_known
  resend_verification state auth = do
    found ← db env (find_by_id env auth.user_id)
    user ← ok_or found unauthorized
    if user.email_verified then pure 204 else do mail_if_known state auth user.email; pure 204
