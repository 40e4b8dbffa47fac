-- ===== src/Api/Openapi/Secured.antt =====
-- What the document says about authentication, and what the routes do.
use rust_generic_user_backen.Base.{◌≡◌, refl, String, true, Option, some, none}
use rust_generic_user_backen.Base.Result.{err}
use rust_generic_user_backen.Core.Error.{unauthorized}
use rust_generic_user_backen.Env.{Env}
use rust_generic_user_backen.App.{World, ok_or}
use rust_generic_user_backen.App.Forward.{bind-err}
use rust_generic_user_backen.Api.State.{AppState}
use rust_generic_user_backen.Api.Extract.{to_str, auth_user, verified_user}
use rust_generic_user_backen.Api.Router.{Request, serve, Authorization}
use rust_generic_user_backen.Api.Openapi.{Operation, operation, handler_of, authorization_of}

-- The text of the header that the route reads.
abbrev pub header_of : Request → Option String
header_of r = elim (authorization_of r) [ none ↦ none | some a ↦ to_str a ]

module _ (env : Env) (state : AppState) where
  auth_user-refuses :
      (a : Authorization) (w : World)
      → to_str a ≡ none
      → auth_user env state a w ≡ (err unauthorized, w)
  unfolding auth_user ok_or
  auth_user-refuses a w h = bind-err (ok_or (to_str a) unauthorized) _ w (rw h refl)

  verified_user-refuses :
      (a : Authorization) (w : World)
      → to_str a ≡ none
      → verified_user env state a w ≡ (err unauthorized, w)
  unfolding verified_user
  verified_user-refuses a w h = bind-err (auth_user env state a) _ w (auth_user-refuses a w h)

  -- A route that the OpenAPI document marks with `bearer_auth` answers "unauthorized" to a request
  -- without a readable `Authorization` header, and makes no effect.
  pub serve-secured :
      (r : Request) (op : Operation) (w : World)
      → operation (handler_of r) ≡ some op
      → op.secured ≡ true
      → header_of r ≡ none
      → serve env state r w ≡ (err unauthorized, w)
  unfolding serve
  serve-secured (Request.resend_verification a) op w e s h =
      bind-err _ _ w (auth_user-refuses a w h)
  serve-secured (Request.me a) op w e s h = bind-err _ _ w (auth_user-refuses a w h)
  serve-secured (Request.my_permissions a) op w e s h = bind-err _ _ w (auth_user-refuses a w h)
  serve-secured (Request.list_users a page) op w e s h =
      bind-err _ _ w (verified_user-refuses a w h)
  serve-secured (Request.set_role a id role) op w e s h =
      bind-err _ _ w (verified_user-refuses a w h)
  serve-secured (Request.set_active a id active) op w e s h =
      bind-err _ _ w (verified_user-refuses a w h)
  serve-secured (Request.grant_permission a id body) op w e s h =
      bind-err _ _ w (verified_user-refuses a w h)
  serve-secured r op w e s h = cc
