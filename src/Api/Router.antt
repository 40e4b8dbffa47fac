-- ===== src/Api/Router.antt =====
-- The routes of crates/api/src/routes/mod.rs and of the three routers below it. A request is a
-- route with what axum extracts for its handler; the extractors that authenticate run first.
pub mod AuthKeeps
pub mod DbKeeps
pub mod Keeps
pub mod SingleUse
pub mod Administration
pub mod Logout
pub mod OneTime
use rust_generic_user_backen.Base.{ℕ, String, Bool, Option, List, [], ◌∷◌}
use rust_generic_user_backen.Base.Result.{Result, ok, err}
use rust_generic_user_backen.Core.Role.{Role}
use rust_generic_user_backen.Core.User.{Uuid, User}
use rust_generic_user_backen.Core.Error.{AppError}
use rust_generic_user_backen.Env.{Env}
use rust_generic_user_backen.App.{World, App, pure, ◌>>=◌}
use rust_generic_user_backen.Api.State.{AppState}
use rust_generic_user_backen.Api.Extract.{HeaderValue, auth_user, verified_user}
use rust_generic_user_backen.Api.Auth.Tokens.{TokenPair}
use rust_generic_user_backen.Api.Auth.Register
use rust_generic_user_backen.Api.Auth.Register.{RegisterReq}
use rust_generic_user_backen.Api.Auth.Session
use rust_generic_user_backen.Api.Auth.Session.{LoginReq}
use rust_generic_user_backen.Api.Auth.Google
use rust_generic_user_backen.Api.Auth.Google.{OauthCallbackQuery}
use rust_generic_user_backen.Api.Auth.VerifyEmail
use rust_generic_user_backen.Api.Auth.Reset
use rust_generic_user_backen.Api.Auth.Reset.{ResetPasswordReq}
use rust_generic_user_backen.Api.Admin
use rust_generic_user_backen.Api.Admin.{Page, GrantPermReq}
use rust_generic_user_backen.Api.Users

-- The value of the `Authorization` header, if the request has one.
abbrev pub Authorization : Type 0
Authorization = Option HeaderValue

pub data Request : Type 0 where
  health : Request
  register : RegisterReq → Request
  login : LoginReq → Request
  refresh logout verify_email forgot_password : String → Request
  resend_verification : Authorization → Request
  reset_password : ResetPasswordReq → Request
  google_start : Request
  google_callback : OauthCallbackQuery → Request
  me my_permissions : Authorization → Request
  list_users : Authorization → Page → Request
  set_role : Authorization → Uuid → Role → Request
  set_active : Authorization → Uuid → Bool → Request
  grant_permission : Authorization → Uuid → GrantPermReq → Request

-- The success of a handler: a status alone, or a status with a body.
pub data Reply : Type 0 where
  status : ℕ → Reply
  text redirect : String → Reply
  tokens : ℕ → TokenPair → Reply
  user : User → Reply
  users : List User → Reply
  permissions : List String → Reply

module _ (env : Env) (state : AppState) where
  unfoldable pub serve : Request → App AppError Reply
  serve health = pure (text "ok")
  serve (register body) = do
    (code, pair) ← Register.register env state body
    pure (tokens code pair)
  serve (login body) = do pair ← Session.login env state body; pure (tokens 200 pair)
  serve (refresh token) = do pair ← Session.refresh env state token; pure (tokens 200 pair)
  serve (logout token) = do code ← Session.logout env state token; pure (status code)
  serve (verify_email token) = do code ← VerifyEmail.verify_email env token; pure (status code)
  serve (resend_verification authorization) = do
    auth ← auth_user env state authorization
    code ← VerifyEmail.resend_verification env state auth
    pure (status code)
  serve (forgot_password email) = do
    code ← Reset.forgot_password env state email
    pure (status code)
  serve (reset_password body) = do code ← Reset.reset_password env body; pure (status code)
  serve google_start = do url ← Google.google_start env state; pure (redirect url)
  serve (google_callback q) = do pair ← Google.google_callback env state q; pure (tokens 200 pair)
  serve (me authorization) = do
    auth ← auth_user env state authorization
    u ← Users.me env auth
    pure (user u)
  serve (my_permissions authorization) = do
    auth ← auth_user env state authorization
    names ← Users.my_permissions env auth
    pure (permissions names)
  serve (list_users authorization page) = do
    actor ← verified_user env state authorization
    found ← Admin.list_users env actor page
    pure (users found)
  serve (set_role authorization id role) = do
    actor ← verified_user env state authorization
    code ← Admin.set_role env actor id role
    pure (status code)
  serve (set_active authorization id active) = do
    actor ← verified_user env state authorization
    code ← Admin.set_active env actor id active
    pure (status code)
  serve (grant_permission authorization id body) = do
    actor ← verified_user env state authorization
    code ← Admin.grant_permission env actor id body
    pure (status code)

  -- The world after a run of requests, one after the other.
  unfoldable pub serve_all : List Request → World → World
  serve_all [] w = w
  serve_all (r ∷ rest) w = serve_all rest (serve r w).1
