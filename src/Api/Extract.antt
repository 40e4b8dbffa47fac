-- ===== src/Api/Extract.antt =====
-- crates/api/src/middleware/auth.rs: the two extractors that authenticate a request.
pub mod Verified
pub mod Bearer
use rust_generic_user_backen.Base.{String, Option, none, some, unwrap_or, not, if◌then◌else◌}
use rust_generic_user_backen.Base.Text.{strip_prefix, trim}
use rust_generic_user_backen.Core.Role
use rust_generic_user_backen.Core.Role.{Role}
use rust_generic_user_backen.Core.User.{Uuid, User}
use rust_generic_user_backen.Core.Error.{AppError, unauthorized, email_not_verified}
use rust_generic_user_backen.Auth.Jwt.{verify}
use rust_generic_user_backen.Db.Users.{find_by_id}
use rust_generic_user_backen.Env.{Env}
use rust_generic_user_backen.App.{App, pure, raise_if, ok_or, db, ◌>>=◌, ◌>>◌}
use rust_generic_user_backen.Api.State.{AppState}

-- The value of a header: a text, or bytes that `to_str` refuses.
pub data HeaderValue : Type 0 where
  readable : String → HeaderValue
  opaque : HeaderValue

-- `parts.headers.get(AUTHORIZATION).and_then(|h| h.to_str().ok())`
abbrev pub to_str : Option HeaderValue → Option String
to_str (some (readable s)) = some s
to_str _ = none

pub record AuthUser : Type 0 where
  pub user_id : Uuid
  pub role : Role

pub record VerifiedUser : Type 0 where
  pub user_id : Uuid
  pub role : Role

module _ (env : Env) (state : AppState) where
  -- `AuthUser::from_request_parts`
  unfoldable pub auth_user : Option HeaderValue → App AppError AuthUser
  auth_user authorization = do
    header ← ok_or (to_str authorization) unauthorized
    rest ← ok_or (strip_prefix "Bearer " header) unauthorized
    let token = trim rest
    claims ← verify env state.jwt token
    pure (record { user_id = claims.sub; role = unwrap_or (Role.parse claims.role) Role.user })

  -- `FindUserById for AppState`
  unfoldable pub find_user_by_id : Uuid → App AppError (Option User)
  find_user_by_id id = db env (find_by_id env id)

  -- `VerifiedUser::from_request_parts`
  unfoldable pub verified_user : Option HeaderValue → App AppError VerifiedUser
  verified_user authorization = do
    auth ← auth_user authorization
    found ← find_user_by_id auth.user_id
    user ← ok_or found unauthorized
    raise_if (not user.email_verified) email_not_verified
    pure (record { user_id = auth.user_id; role = auth.role })
