-- ===== src/Api/Auth/Session.antt =====
-- Login, refresh and logout, of crates/api/src/routes/auth.rs.
pub mod Rotation
pub mod Credentials
pub mod Returns
pub mod Renewed
use rust_generic_user_backen.Base.{ℕ, String, not, ◌||◌, none, is_some, if◌then◌else◌}
use rust_generic_user_backen.Base.Int.{leb_ℤ}
use rust_generic_user_backen.Core.Error.{AppError, forbidden, unauthorized, auth}
use rust_generic_user_backen.Auth.Password.{verify_password}
use rust_generic_user_backen.Auth.Tokens.{hash_refresh_token}
use rust_generic_user_backen.Db.Users.{find_by_email, find_by_id}
use rust_generic_user_backen.Db.RefreshTokens.{lookup_refresh_token, revoke_refresh_token}
use rust_generic_user_backen.Env.{Env}
use rust_generic_user_backen.App.{App, pure, raise_if, lift, ok_or, now_utc, db, ◌>>=◌, ◌>>◌}
use rust_generic_user_backen.Api.State.{AppState}
use rust_generic_user_backen.Api.Auth.Tokens.{TokenPair, issue_tokens}

pub record LoginReq : Type 0 where
  pub email : String
  pub password : String

module _ (env : Env) (state : AppState) where
  unfoldable pub login : LoginReq → App AppError TokenPair
  login body = do
    found ← db env (find_by_email env body.email)
    row ← ok_or found (auth "Invalid email or password")
    phc ← ok_or row.password_hash (auth "password login disabled")
    verified ← lift (verify_password env body.password phc)
    raise_if (not verified) (auth "Invalid email or password")
    raise_if (not row.user.is_active) forbidden
    issue_tokens env state row.user.id row.user.role none

  -- The body is the refresh token.
  unfoldable pub refresh : String → App AppError TokenPair
  refresh refresh_token = do
    let hash = hash_refresh_token env refresh_token
    found ← db env (lookup_refresh_token env hash)
    (user_id, expires_at, revoked_at) ← ok_or found unauthorized
    now ← now_utc env
    raise_if (is_some revoked_at || leb_ℤ expires_at now) unauthorized
    db env (revoke_refresh_token env hash)
    owner ← db env (find_by_id env user_id)
    user ← ok_or owner unauthorized
    issue_tokens env state user.id user.role none

  -- 204
  unfoldable pub logout : String → App AppError ℕ
  logout refresh_token = do
    let hash = hash_refresh_token env refresh_token
    db env (revoke_refresh_token env hash)
    pure 204
