-- ===== src/Auth/Jwt.antt =====
-- `JwtCodec` of crates/auth/src/jwt.rs. The codec is its configuration: both keys are made of the
-- secret. Times are read in Unix seconds.
pub mod Expiry
use rust_generic_user_backen.Base.{String, ◌/◌, ◌^◌}
use rust_generic_user_backen.Base.Int.{ℤ, pos, negsuc, add_i64, mul_i64}
use rust_generic_user_backen.Base.Text.{◌<>◌}
use rust_generic_user_backen.Base.Result.{map_err}
use rust_generic_user_backen.Core.Role
use rust_generic_user_backen.Core.Role.{Role}
use rust_generic_user_backen.Core.User.{Uuid, OffsetDateTime}
use rust_generic_user_backen.Core.Error.{AppError, unauthorized, auth}
use rust_generic_user_backen.Auth.Types.{JwtConfig, Claims}
use rust_generic_user_backen.Env.{Env}
use rust_generic_user_backen.App.{App, lift, now_utc, new_v4, ◌>>=◌}

-- `unix_timestamp`: the whole seconds, rounded down.
unfoldable pub unix_timestamp : OffsetDateTime → ℤ
unix_timestamp (pos n) = pos (n / 10 ^ 9)
unix_timestamp (negsuc n) = negsuc (n / 10 ^ 9)

-- The claims of an access token that is issued at second `now`.
unfoldable pub claims_at : JwtConfig → Uuid → Role → ℤ → Uuid → Claims
claims_at cfg user_id role now jti = record {
  sub = user_id;
  role = Role.as_str role;
  iss = cfg.issuer;
  iat = now;
  exp = add_i64 now (mul_i64 cfg.access_ttl_min (pos 60));
  jti = jti;
}

module _ (env : Env) (cfg : JwtConfig) where
  unfoldable pub issue : Uuid → Role → App AppError String
  unfolding claims_at
  issue user_id role = do
    now ← now_utc env
    jti ← new_v4 env
    lift (
        map_err (λ e. auth ("encode jwt: " <> e))
          (env.jwt_encode cfg.secret (claims_at cfg user_id role (unix_timestamp now) jti)))

  -- The library reads the application's clock.
  unfoldable pub verify : String → App AppError Claims
  verify token = do
    now ← now_utc env
    lift (
        map_err (λ _. unauthorized)
          (env.jwt_decode cfg.secret cfg.issuer (unix_timestamp now) token))
