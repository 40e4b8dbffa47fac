-- ===== src/Api/Openapi.antt =====
-- The OpenAPI document: the `utoipa::path` attributes of crates/api/src/routes and the list of paths
-- of crates/api/src/openapi.rs. Beside it the routers of crates/api/src/routes, as tables of methods
-- and paths.
pub mod Answered
pub mod Secured
pub mod Routed
use mathlib.Core.Option
use rust_generic_user_backen.Base.{
  ℕ, String, Bool, true, false, ◌&&◌, Option, none, some, List, [], ◌∷◌, ◌++◌, map, find, str_eq,
}
use rust_generic_user_backen.Base.Text.{◌<>◌}
use rust_generic_user_backen.Api.Extract.{HeaderValue}
use rust_generic_user_backen.Api.Router.{
  Request, Reply, Authorization, status, text, redirect, tokens, user, users, permissions,
}

-- The handlers of the routes.
pub data Handler : Type 0 where
  health register login refresh logout verify_email resend_verification forgot_password : Handler
  reset_password google_start google_callback me my_permissions list_users set_role : Handler
  set_active grant_permission : Handler

pub data Method : Type 0 where
  get post patch : Method

-- An attribute: the method and the path, the statuses of the responses, and whether `security` asks
-- for `bearer_auth`.
pub record Operation : Type 0 where
  pub method : Method
  pub path : String
  pub responses : List ℕ
  pub secured : Bool

abbrev open_operation : Method → String → List ℕ → Operation
open_operation method path responses = record {
  method = method;
  path = path;
  responses = responses;
  secured = false;
}

abbrev secured_operation : Method → String → List ℕ → Operation
secured_operation method path responses = record {
  method = method;
  path = path;
  responses = responses;
  secured = true;
}

-- The attribute of each handler.
abbrev pub register_operation : Operation
register_operation = open_operation post "/api/v1/auth/register" (201 ∷ 409 ∷ 422 ∷ [])

abbrev pub login_operation : Operation
login_operation = open_operation post "/api/v1/auth/login" (200 ∷ 401 ∷ [])

abbrev pub refresh_operation : Operation
refresh_operation = open_operation post "/api/v1/auth/refresh" (200 ∷ 401 ∷ [])

abbrev pub logout_operation : Operation
logout_operation = open_operation post "/api/v1/auth/logout" (204 ∷ 401 ∷ [])

abbrev pub verify_email_operation : Operation
verify_email_operation = open_operation get "/api/v1/auth/verify-email" (200 ∷ 400 ∷ [])

abbrev pub resend_verification_operation : Operation
resend_verification_operation =
    secured_operation post "/api/v1/auth/resend-verification" (204 ∷ 401 ∷ [])

abbrev pub forgot_password_operation : Operation
forgot_password_operation = open_operation post "/api/v1/auth/forgot-password" (204 ∷ [])

abbrev pub reset_password_operation : Operation
reset_password_operation = open_operation post "/api/v1/auth/reset-password" (204 ∷ 400 ∷ [])

abbrev pub google_start_operation : Operation
google_start_operation = open_operation get "/api/v1/auth/oauth/google" (307 ∷ 400 ∷ [])

abbrev pub google_callback_operation : Operation
google_callback_operation = open_operation get "/api/v1/auth/oauth/google/callback" (200 ∷ [])

abbrev pub me_operation : Operation
me_operation = secured_operation get "/api/v1/users/me" (200 ∷ 401 ∷ 404 ∷ [])

abbrev pub my_permissions_operation : Operation
my_permissions_operation = secured_operation get "/api/v1/users/me/permissions" (200 ∷ 401 ∷ [])

abbrev pub list_users_operation : Operation
list_users_operation = secured_operation get "/api/v1/admin/users" (200 ∷ 401 ∷ 403 ∷ [])

abbrev pub set_role_operation : Operation
set_role_operation = secured_operation patch "/api/v1/admin/users/{id}/role" (204 ∷ 401 ∷ 403 ∷ [])

abbrev pub set_active_operation : Operation
set_active_operation =
    secured_operation patch "/api/v1/admin/users/{id}/active" (204 ∷ 401 ∷ 403 ∷ [])

abbrev pub grant_permission_operation : Operation
grant_permission_operation =
    secured_operation post "/api/v1/admin/users/{id}/permissions" (204 ∷ 401 ∷ 403 ∷ [])

-- `health` has no attribute.
abbrev pub operation : Handler → Option Operation
operation health = none
operation register = some register_operation
operation login = some login_operation
operation refresh = some refresh_operation
operation logout = some logout_operation
operation verify_email = some verify_email_operation
operation resend_verification = some resend_verification_operation
operation forgot_password = some forgot_password_operation
operation reset_password = some reset_password_operation
operation google_start = some google_start_operation
operation google_callback = some google_callback_operation
operation me = some me_operation
operation my_permissions = some my_permissions_operation
operation list_users = some list_users_operation
operation set_role = some set_role_operation
operation set_active = some set_active_operation
operation grant_permission = some grant_permission_operation

-- `paths(...)` of `ApiDoc`.
abbrev pub paths : List Handler
paths =
    register ∷ login ∷ refresh ∷ logout ∷ verify_email ∷ resend_verification ∷ forgot_password
    ∷ reset_password ∷ google_start ∷ google_callback ∷ me ∷ my_permissions ∷ list_users ∷ set_role
    ∷ set_active ∷ grant_permission ∷ []

-- The attributes that utoipa reads for a list of handlers.
abbrev pub attributes : List Handler → List Operation
attributes [] = []
attributes (h ∷ rest) = elim (operation h) [
  | none ↦ attributes rest
  | some op ↦ op ∷ attributes rest
]

-- A router, as the rows of its `route` calls.
abbrev pub Routes : Type 0
Routes = List (Method × String × Handler)

abbrev pub auth_routes : Routes
auth_routes =
    (post, "/register", register)
    ∷ (post, "/login", login)
    ∷ (post, "/refresh", refresh)
    ∷ (post, "/logout", logout)
    ∷ (get, "/verify-email", verify_email)
    ∷ (post, "/resend-verification", resend_verification)
    ∷ (post, "/forgot-password", forgot_password)
    ∷ (post, "/reset-password", reset_password)
    ∷ (get, "/oauth/google", google_start)
    ∷ (get, "/oauth/google/callback", google_callback)
    ∷ []

abbrev pub user_routes : Routes
user_routes = (get, "/me", me) ∷ (get, "/me/permissions", my_permissions) ∷ []

abbrev pub admin_routes : Routes
admin_routes =
    (get, "/users", list_users)
    ∷ (patch, "/users/{id}/role", set_role)
    ∷ (patch, "/users/{id}/active", set_active)
    ∷ (post, "/users/{id}/permissions", grant_permission)
    ∷ []

-- `Router::nest`.
abbrev pub nest : String → Routes → Routes
nest prefix = map (λ (method, path, handler). (method, prefix <> path, handler))

abbrev pub routes : Routes
routes =
    (get, "/health", health)
    ∷ nest "/api/v1"
        (nest "/auth" auth_routes ++ nest "/users" user_routes ++ nest "/admin" admin_routes)

-- The handler that a request reaches, and the status of what axum makes of its success.
abbrev pub handler_of : Request → Handler
handler_of Request.health = health
handler_of (Request.register _) = register
handler_of (Request.login _) = login
handler_of (Request.refresh _) = refresh
handler_of (Request.logout _) = logout
handler_of (Request.verify_email _) = verify_email
handler_of (Request.forgot_password _) = forgot_password
handler_of (Request.resend_verification _) = resend_verification
handler_of (Request.reset_password _) = reset_password
handler_of Request.google_start = google_start
handler_of (Request.google_callback _) = google_callback
handler_of (Request.me _) = me
handler_of (Request.my_permissions _) = my_permissions
handler_of (Request.list_users _ _) = list_users
handler_of (Request.set_role _ _ _) = set_role
handler_of (Request.set_active _ _ _) = set_active
handler_of (Request.grant_permission _ _ _) = grant_permission

abbrev pub code : Reply → ℕ
code (status n) = n
code (text s) = 200
code (redirect url) = 307
code (tokens n pair) = n
code (user u) = 200
code (users us) = 200
code (permissions names) = 200

-- The `Authorization` header of a request, for the routes whose handler extracts it.
abbrev pub authorization_of : Request → Option Authorization
authorization_of (Request.resend_verification a) = some a
authorization_of (Request.me a) = some a
authorization_of (Request.my_permissions a) = some a
authorization_of (Request.list_users a _) = some a
authorization_of (Request.set_role a _ _) = some a
authorization_of (Request.set_active a _ _) = some a
authorization_of (Request.grant_permission a _ _) = some a
authorization_of _ = none

abbrev pub same_method : Method → Method → Bool
same_method get get = true
same_method post post = true
same_method patch patch = true
same_method _ _ = false

-- The handler that a router has for a method and a path.
abbrev pub route_in : Routes → Method → String → Option Handler
route_in rows method path =
    Option.map (λ (m, p, h). h) (find (λ (m, p, h). same_method m method && str_eq p path) rows)

-- The operation that a list of operations has for a method and a path.
abbrev pub operation_in : List Operation → Method → String → Option Operation
operation_in ops method path =
    find (λ (op : Operation). same_method op.method method && str_eq op.path path) ops

-- The document that `ApiDoc::openapi` makes.
abbrev pub document : Method → String → Option Operation
document = operation_in (attributes paths)
