-- ===== src/Api/Auth/Tokens.antt =====
-- The helpers of crates/api/src/routes/auth.rs: issuing a pair of tokens, one-time tokens, and the
-- task that mails a verification link.
pub mod Issued
pub mod Issuable
pub mod Expiry
use rust_generic_user_backen.Base.{◌*◌, ◌^◌, String, Option}
use rust_generic_user_backen.Base.Int.{ℤ, pos, ◌+ℤ◌, ◌*ℤ◌, mul_i64}
use rust_generic_user_backen.Base.Text.{◌<>◌}
use rust_generic_user_backen.Core.Role.{Role}
use rust_generic_user_backen.Core.User.{Uuid}
use rust_generic_user_backen.Core.Error.{AppError}
use rust_generic_user_backen.Auth.Jwt.{issue}
use rust_generic_user_backen.Auth.Tokens.{generate_refresh_token, hash_refresh_token}
use rust_generic_user_backen.Db.RefreshTokens.{store_refresh_token}
use rust_generic_user_backen.Db.OneTimeTokens.{store_email_verification_token}
use rust_generic_user_backen.Env.{Env}
use rust_generic_user_backen.App.{App, pure, now_utc, new_v4, db, map_err, spawn, ◌>>=◌, ◌>>◌}
use rust_generic_user_backen.Api.State.{AppState}
use rust_generic_user_backen.Api.Email.{verification_mail}

pub record TokenPair : Type 0 where
  pub access_token : String
  pub refresh_token : String
  pub access_expires_in : ℤ

-- `Duration::days` and `Duration::hours`, in nanoseconds.
abbrev pub days : ℤ → ℤ
days n = n *ℤ pos (86400 * 10 ^ 9)

abbrev pub hours : ℤ → ℤ
hours n = n *ℤ pos (3600 * 10 ^ 9)

module _ (env : Env) where
  unfoldable pub issue_tokens : AppState → Uuid → Role → Option String → App AppError TokenPair
  issue_tokens state user_id role user_agent = do
    access ← issue env state.jwt user_id role
    refresh ← generate_refresh_token env
    let hash = hash_refresh_token env refresh
    now ← now_utc env
    let exp = now +ℤ days state.settings.auth.jwt_refresh_ttl_days
    db env (store_refresh_token env user_id hash exp user_agent)
    pure (record {
      access_token = access;
      refresh_token = refresh;
      access_expires_in = mul_i64 state.settings.auth.jwt_access_ttl_min (pos 60);
    })

  unfoldable pub generate_verification_token : {E : Type 0} → App E String
  generate_verification_token = do
    first ← new_v4 env
    second ← new_v4 env
    pure (env.as_simple first <> env.as_simple second)

  unfoldable pub sha256_hex : String → String
  sha256_hex input = env.hex_encode (env.sha256 input)

  unfoldable pub spawn_verification_email : AppState → Uuid → String → App Unit Unit
  spawn_verification_email state user_id email = do
    token ← generate_verification_token
    let hash = sha256_hex token
    now ← now_utc env
    let expires_at = now +ℤ hours (pos 24)
    map_err (λ _. tt) (store_email_verification_token env user_id hash expires_at)
    let url = state.settings.http.public_url <> "/verify-email?token=" <> token
    spawn (verification_mail email url)
