-- ===== src/Api/Router/Keeps.antt =====
-- Invariants of the tables: from the statements of the program to its requests.
use rust_generic_user_backen.Base.{String, Bool, Option, none, some, List, [], ◌∷◌}
use rust_generic_user_backen.Base.Int.{ℤ}
use rust_generic_user_backen.Base.Result.{Result, ok}
use rust_generic_user_backen.Core.Role.{Role}
use rust_generic_user_backen.Core.User.{Uuid, User}
use rust_generic_user_backen.Core.Error.{AppError}
use rust_generic_user_backen.Auth.Permissions.{Permission, load_permissions}
use rust_generic_user_backen.Db.Schema.{Db, DbError}
use rust_generic_user_backen.Db.Program.{KeptByProgram}
use rust_generic_user_backen.Db.Users.{UserWithSecret}
use rust_generic_user_backen.Env.{Env}
use rust_generic_user_backen.App.{World}
use rust_generic_user_backen.App.Keeps.{Keeps, OthersKeep, keeps_rules}
use rust_generic_user_backen.Api.State.{AppState}
use rust_generic_user_backen.Api.Extract.{AuthUser, VerifiedUser, verified_user, find_user_by_id}
use rust_generic_user_backen.Api.Auth.Tokens.{issue_tokens, spawn_verification_email}
use rust_generic_user_backen.Api.Auth.Register
use rust_generic_user_backen.Api.Auth.Register.{RegisterReq}
use rust_generic_user_backen.Api.Auth.Session
use rust_generic_user_backen.Api.Auth.Session.{LoginReq}
use rust_generic_user_backen.Api.Auth.Google
use rust_generic_user_backen.Api.Auth.Google.{OauthCallbackQuery}
use rust_generic_user_backen.Api.Auth.VerifyEmail
use rust_generic_user_backen.Api.Auth.Reset
use rust_generic_user_backen.Api.Auth.Reset.{ResetPasswordReq}
use rust_generic_user_backen.Api.Admin
use rust_generic_user_backen.Api.Admin.{Page, GrantPermReq}
use rust_generic_user_backen.Api.Users as MeRoutes
use rust_generic_user_backen.Api.Router.{Request, serve, serve_all, Authorization}
use rust_generic_user_backen.Api.Router.AuthKeeps.{auth_functions, auth_user-Keeps}
use rust_generic_user_backen.Api.Router.DbKeeps.{db_functions}

-- The handlers.
module _ {ℓ} {P : Db → Type ℓ} (env : Env) (others : OthersKeep env P)
    (kept : KeptByProgram env P) where
  pub issue_tokens-Keeps :
      (state : AppState) (id : Uuid) (role : Role) (agent : Option String)
      → Keeps P (issue_tokens env state id role agent)
  unfolding issue_tokens
  issue_tokens-Keeps state id role agent =
      search (auth_functions, db_functions, others, kept) depth 12

  spawn_verification_email-Keeps :
      (state : AppState) (id : Uuid) (email : String)
      → Keeps P (spawn_verification_email env state id email)
  unfolding spawn_verification_email
  spawn_verification_email-Keeps state id email =
      search (auth_functions, db_functions, others, kept) depth 12

  mail_if_found-Keeps :
      (state : AppState) (email : String) (found : Result DbError (Option UserWithSecret))
      → Keeps P (Register.mail_if_found env state email found)
  unfolding Register.mail_if_found
  mail_if_found-Keeps state email (ok (some u)) =
      search (keeps_rules, spawn_verification_email-Keeps)
  mail_if_found-Keeps state email _ = search keeps_rules

  register-Keeps :
      (state : AppState) (body : RegisterReq) → Keeps P (Register.register env state body)
  unfolding Register.register Register.register_user Register.app_port
  register-Keeps state body =
      search (auth_functions, db_functions, mail_if_found-Keeps, others, kept) depth 30

  login-Keeps : (state : AppState) (body : LoginReq) → Keeps P (Session.login env state body)
  unfolding Session.login
  login-Keeps state body =
      search (auth_functions, db_functions, issue_tokens-Keeps, others, kept) depth 30

  refresh-Keeps : (state : AppState) (token : String) → Keeps P (Session.refresh env state token)
  unfolding Session.refresh
  refresh-Keeps state token =
      search (auth_functions, db_functions, issue_tokens-Keeps, others, kept) depth 30

  logout-Keeps : (state : AppState) (token : String) → Keeps P (Session.logout env state token)
  unfolding Session.logout
  logout-Keeps state token = search (auth_functions, db_functions, others, kept) depth 12

  verify_email-Keeps : (token : String) → Keeps P (VerifyEmail.verify_email env token)
  unfolding VerifyEmail.verify_email
  verify_email-Keeps token = search (auth_functions, db_functions, others, kept) depth 12

  mail_if_known-Keeps :
      (state : AppState) (auth : AuthUser) (email : Option String)
      → Keeps P (VerifyEmail.mail_if_known env state auth email)
  unfolding VerifyEmail.mail_if_known
  mail_if_known-Keeps state auth none = search keeps_rules
  mail_if_known-Keeps state auth (some email) = search (keeps_rules, spawn_verification_email-Keeps)

  resend_verification-Keeps :
      (state : AppState) (auth : AuthUser)
      → Keeps P (VerifyEmail.resend_verification env state auth)
  unfolding VerifyEmail.resend_verification
  resend_verification-Keeps state auth =
      search (auth_functions, db_functions, mail_if_known-Keeps, others, kept) depth 12

  request_for-Keeps :
      (found : Option (Uuid × Bool)) (ttl : ℤ)
      → Keeps P (Reset.request_for env (Reset.app_port env) ttl found)
  unfolding Reset.request_for Reset.app_port
  request_for-Keeps none ttl = search keeps_rules
  request_for-Keeps (some (id, has_password)) ttl =
      search (auth_functions, db_functions, others, kept) depth 12

  mail_reset-Keeps :
      (state : AppState) (email : String) (requested : Result AppError (Option String))
      → Keeps P (Reset.mail_reset env state email requested)
  unfolding Reset.mail_reset
  mail_reset-Keeps state email (ok (some token)) = search keeps_rules
  mail_reset-Keeps state email _ = search keeps_rules

  request_password_reset-Keeps :
      (email : String) (ttl : ℤ)
      → Keeps P (Reset.request_password_reset env (Reset.app_port env) email ttl)
  unfolding Reset.request_password_reset Reset.app_port
  request_password_reset-Keeps email ttl =
      search (auth_functions, db_functions, request_for-Keeps, others, kept) depth 12

  forgot_password-Keeps :
      (state : AppState) (email : String) → Keeps P (Reset.forgot_password env state email)
  unfolding Reset.forgot_password
  forgot_password-Keeps state email =
      search (keeps_rules, request_password_reset-Keeps, mail_reset-Keeps) depth 8

  reset_password-Keeps : (body : ResetPasswordReq) → Keeps P (Reset.reset_password env body)
  unfolding Reset.reset_password Reset.perform_password_reset Reset.app_port
  reset_password-Keeps body = search (auth_functions, db_functions, others, kept) depth 30

  google_start-Keeps : (state : AppState) → Keeps P (Google.google_start env state)
  unfolding Google.google_start
  google_start-Keeps state = search auth_functions depth 12

  upsert_found-Keeps :
      (provider subject : String) (email display : Option String) (raw : String)
      (found : Option User)
      → Keeps P (Google.upsert_found env provider subject email display raw found)
  unfolding Google.upsert_found
  upsert_found-Keeps provider subject email display raw none =
      search (keeps_rules, db_functions, others, kept) depth 12
  upsert_found-Keeps provider subject email display raw (some u) =
      search (keeps_rules, db_functions, others, kept) depth 12

  google_callback-Keeps :
      (state : AppState) (q : OauthCallbackQuery) → Keeps P (Google.google_callback env state q)
  unfolding Google.google_callback Google.upsert_oauth_user
  google_callback-Keeps state q =
      search (auth_functions, db_functions, upsert_found-Keeps, issue_tokens-Keeps, others, kept)
        depth 30

  verified_user-Keeps :
      (state : AppState) (authorization : Authorization)
      → Keeps P (verified_user env state authorization)
  unfolding verified_user find_user_by_id
  verified_user-Keeps state authorization =
      search (auth_functions, db_functions, others, kept) depth 14

  authorize-Keeps : (user : VerifiedUser) (p : Permission) → Keeps P (Admin.authorize env user p)
  unfolding Admin.authorize load_permissions
  authorize-Keeps user p = search (keeps_rules, db_functions, others, kept) depth 8

  list_users-Keeps : (user : VerifiedUser) (page : Page) → Keeps P (Admin.list_users env user page)
  unfolding Admin.list_users
  list_users-Keeps user page =
      search (keeps_rules, authorize-Keeps, db_functions, others, kept) depth 8

  set_role-Keeps :
      (user : VerifiedUser) (id : Uuid) (role : Role) → Keeps P (Admin.set_role env user id role)
  unfolding Admin.set_role
  set_role-Keeps user id role =
      search (keeps_rules, authorize-Keeps, db_functions, others, kept) depth 8

  set_active-Keeps :
      (user : VerifiedUser) (id : Uuid) (active : Bool)
      → Keeps P (Admin.set_active env user id active)
  unfolding Admin.set_active
  set_active-Keeps user id active =
      search (keeps_rules, authorize-Keeps, db_functions, others, kept) depth 8

  grant_permission-Keeps :
      (user : VerifiedUser) (id : Uuid) (body : GrantPermReq)
      → Keeps P (Admin.grant_permission env user id body)
  unfolding Admin.grant_permission
  grant_permission-Keeps user id body =
      search (keeps_rules, authorize-Keeps, others, kept.overrides_keep.upsert_permission_keeps)
        depth 8

  me-Keeps : (user : AuthUser) → Keeps P (MeRoutes.me env user)
  unfolding MeRoutes.me
  me-Keeps user = search (keeps_rules, db_functions, others, kept) depth 8

  my_permissions-Keeps : (user : AuthUser) → Keeps P (MeRoutes.my_permissions env user)
  unfolding MeRoutes.my_permissions
  my_permissions-Keeps user = search (keeps_rules, db_functions, others, kept) depth 8

  ruleset handlers = (
    keeps_rules, register-Keeps, login-Keeps, refresh-Keeps, logout-Keeps, verify_email-Keeps,
    resend_verification-Keeps, forgot_password-Keeps, reset_password-Keeps, google_start-Keeps,
    google_callback-Keeps, me-Keeps, my_permissions-Keeps, list_users-Keeps, set_role-Keeps,
    set_active-Keeps, grant_permission-Keeps, auth_user-Keeps, verified_user-Keeps,
  )

  -- One request, to any route, keeps it at whatever effect it fails.
  pub serve-Keeps : (state : AppState) (r : Request) → Keeps P (serve env state r)
  unfolding serve
  serve-Keeps state Request.health = search handlers
  serve-Keeps state r = search handlers depth 8

  -- Whatever every statement of the program keeps, and the other requests keep, a run of requests
  -- to any routes keeps, at whatever effects they fail.
  pub serve_all-keeps :
      (state : AppState) (rs : List Request) (w : World) → P w.db → P (serve_all env state rs w).db
  unfolding serve_all
  serve_all-keeps state [] w h = h
  serve_all-keeps state (r ∷ rs) w h =
      serve_all-keeps state rs (serve env state r w).1 ((serve-Keeps state r).at w h)
