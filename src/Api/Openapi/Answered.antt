-- ===== src/Api/Openapi/Answered.antt =====
-- The routes keep what the OpenAPI document says of them.
use rust_generic_user_backen.Base.{
  ℕ, String, ◌≡◌, refl, Bool, true, false, some, none, any, ◌==◌, ◌||◌, str_eq, subst,
}
use rust_generic_user_backen.Api.Openapi.Routed.{described, route_in-described, routes-IsDescribed}
use rust_generic_user_backen.Base.Result.{ok}
use rust_generic_user_backen.Core.Error.{AppError}
use rust_generic_user_backen.Core.Role.{Role}
use rust_generic_user_backen.Core.User.{Uuid}
use rust_generic_user_backen.Api.Auth.Register.{RegisterReq}
use rust_generic_user_backen.Api.Auth.Reset.{ResetPasswordReq}
use rust_generic_user_backen.Api.Admin.{GrantPermReq}
use rust_generic_user_backen.Env.{Env}
use rust_generic_user_backen.App.{World, App, pure, ◌>>=◌}
use rust_generic_user_backen.App.Yields.{
  Yields, Yields-then, Yields-pure, Yields-bind, yields_rules,
}
use rust_generic_user_backen.Api.State.{AppState}
use rust_generic_user_backen.Api.Extract.{AuthUser, VerifiedUser}
use rust_generic_user_backen.Api.Auth.Register
use rust_generic_user_backen.Api.Auth.Session
use rust_generic_user_backen.Api.Auth.VerifyEmail
use rust_generic_user_backen.Api.Auth.Reset
use rust_generic_user_backen.Api.Admin
use rust_generic_user_backen.Api.Router.{Request, Reply, status, serve}
use rust_generic_user_backen.Api.Openapi.{
  Handler, logout, verify_email, resend_verification, forgot_password, reset_password, set_role,
  set_active, grant_permission, handler_of, code, Method, document, routes, route_in,
}

-- The document has the method and the path, and the status is one of its responses.
abbrev pub is_documented : Method → String → ℕ → Bool
is_documented method path n = elim (document method path) [
  | none ↦ false
  | some op ↦ any (λ m. m == n) op.responses
]

-- The status of a handler's answer is documented where the router has the handler.
abbrev answers : Handler → ℕ → Bool
answers h n =
    let (method, path) = described h in str_eq path "/health" || is_documented method path n

module _ (env : Env) (state : AppState) where
  -- The status that a handler returns.
  logout-status : (token : String) → Yields (λ n. n ≡ 204) (Session.logout env state token)
  unfolding Session.logout
  logout-status token = search yields_rules

  verify_email-status :
      (token : String) → Yields (λ n. n ≡ 200) (VerifyEmail.verify_email env token)
  unfolding VerifyEmail.verify_email
  verify_email-status token = search yields_rules

  resend_verification-status :
      (auth : AuthUser) → Yields (λ n. n ≡ 204) (VerifyEmail.resend_verification env state auth)
  unfolding VerifyEmail.resend_verification
  resend_verification-status auth = search yields_rules depth 8

  forgot_password-status :
      (email : String) → Yields (λ n. n ≡ 204) (Reset.forgot_password env state email)
  unfolding Reset.forgot_password
  forgot_password-status email = search yields_rules

  reset_password-status :
      (body : ResetPasswordReq) → Yields (λ n. n ≡ 204) (Reset.reset_password env body)
  unfolding Reset.reset_password
  reset_password-status body = search yields_rules

  set_role-status :
      (actor : VerifiedUser) (id : Uuid) (role : Role)
      → Yields (λ n. n ≡ 204) (Admin.set_role env actor id role)
  unfolding Admin.set_role
  set_role-status actor id role = search yields_rules

  set_active-status :
      (actor : VerifiedUser) (id : Uuid) (active : Bool)
      → Yields (λ n. n ≡ 204) (Admin.set_active env actor id active)
  unfolding Admin.set_active
  set_active-status actor id active = search yields_rules

  grant_permission-status :
      (actor : VerifiedUser) (id : Uuid) (body : GrantPermReq)
      → Yields (λ n. n ≡ 204) (Admin.grant_permission env actor id body)
  unfolding Admin.grant_permission
  grant_permission-status actor id body = search yields_rules

  register-status :
      (body : RegisterReq) → Yields (λ p. p.0 ≡ 201) (Register.register env state body)
  unfolding Register.register
  register-status body = search yields_rules depth 8

  -- A reply with a status alone.
  replies :
      (h : Handler) (n : ℕ) (m : App AppError ℕ)
      → answers h n ≡ true
      → Yields (λ k. k ≡ n) m
      → Yields (λ reply. answers h (code reply) ≡ true) (m >>= λ k. pure (status k))
  replies h n m d y = Yields-then (λ k. k ≡ n) m _ y (λ k e. Yields-pure (status k) (rw e d))

  serve-Yields :
      (r : Request)
      → Yields (λ reply. answers (handler_of r) (code reply) ≡ true) (serve env state r)
  unfolding serve
  serve-Yields Request.health = Yields-pure _ refl
  serve-Yields (Request.register body) =
      Yields-then (λ p. p.0 ≡ 201) _ _ (register-status body) (λ p e. Yields-pure _ (rw e refl))
  serve-Yields (Request.login body) = Yields-bind _ _ λ pair. Yields-pure _ refl
  serve-Yields (Request.refresh token) = Yields-bind _ _ λ pair. Yields-pure _ refl
  serve-Yields (Request.logout token) = replies logout 204 _ refl (logout-status token)
  serve-Yields (Request.verify_email token) =
      replies verify_email 200 _ refl (verify_email-status token)
  serve-Yields (Request.resend_verification a) =
      Yields-bind _ _
        λ auth. replies resend_verification 204 _ refl (resend_verification-status auth)
  serve-Yields (Request.forgot_password email) =
      replies forgot_password 204 _ refl (forgot_password-status email)
  serve-Yields (Request.reset_password body) =
      replies reset_password 204 _ refl (reset_password-status body)
  serve-Yields Request.google_start = Yields-bind _ _ λ url. Yields-pure _ refl
  serve-Yields (Request.google_callback q) = Yields-bind _ _ λ pair. Yields-pure _ refl
  serve-Yields (Request.me a) = Yields-bind _ _ λ auth. Yields-bind _ _ λ u. Yields-pure _ refl
  serve-Yields (Request.my_permissions a) =
      Yields-bind _ _ λ auth. Yields-bind _ _ λ names. Yields-pure _ refl
  serve-Yields (Request.list_users a page) =
      Yields-bind _ _ λ actor. Yields-bind _ _ λ found. Yields-pure _ refl
  serve-Yields (Request.set_role a id role) =
      Yields-bind _ _ λ actor. replies set_role 204 _ refl (set_role-status actor id role)
  serve-Yields (Request.set_active a id active) =
      Yields-bind _ _ λ actor. replies set_active 204 _ refl (set_active-status actor id active)
  serve-Yields (Request.grant_permission a id body) =
      Yields-bind _ _
        λ actor. replies grant_permission 204 _ refl (grant_permission-status actor id body)

  -- The OpenAPI document has every route but `/health`, and the status of every successful answer of
  -- a route is among the responses that the document gives for the method and the path by which the
  -- router reaches it.
  pub serve-documented :
      (r : Request) (method : Method) (path : String) (w w' : World) (reply : Reply)
      → route_in routes method path ≡ some (handler_of r)
      → serve env state r w ≡ (ok reply, w')
      → str_eq path "/health" || is_documented method path (code reply) ≡ true
  serve-documented r method path w w' reply reached e =
      subst
        (λ (q : Method × String). str_eq q.1 "/health" || is_documented q.0 q.1 (code reply) ≡ true)
        (route_in-described routes method path (handler_of r) routes-IsDescribed reached)
        ((serve-Yields r).at w e)
