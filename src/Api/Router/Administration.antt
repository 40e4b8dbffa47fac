-- ===== src/Api/Router/Administration.antt =====
-- What it takes to use the routes for administrators.
use rust_generic_user_backen.Base.{◌≡◌, ◌∙◌, Option, none, some, true, false}
use rust_generic_user_backen.Base.Result.{ok, err}
use rust_generic_user_backen.Core.Error.{AppError, forbidden}
use rust_generic_user_backen.Auth.Permissions.{
  Permission, users_read, users_manage, users_assign_roles,
}
use rust_generic_user_backen.Env.{Env, clean}
use rust_generic_user_backen.App.{World, App, pure, ◌>>=◌}
use rust_generic_user_backen.App.Forward.{seen, bind-ok, bind-err}
use rust_generic_user_backen.App.Inversion.{after_any}
use rust_generic_user_backen.Api.State.{AppState}
use rust_generic_user_backen.Api.Extract.{VerifiedUser, verified_user}
use rust_generic_user_backen.Api.Extract.Verified.{Verified, verified_user-Verified}
use rust_generic_user_backen.Api.Admin
use rust_generic_user_backen.Api.Admin.Authorized.{may, guarded-ok, guarded-err}
use rust_generic_user_backen.Api.Router.{Request, Reply, Authorization, serve}

-- The permission that a route for administrators asks for, and the header that it reads.
abbrev pub needs : Request → Option (Authorization × Permission)
needs (Request.list_users authorization page) = some (authorization, users_read)
needs (Request.set_role authorization id role) = some (authorization, users_assign_roles)
needs (Request.set_active authorization id active) = some (authorization, users_manage)
needs (Request.grant_permission authorization id body) = some (authorization, users_assign_roles)
needs _ = none

needed :
    {a b : Authorization} {p q : Permission}
    → ◌≡◌ {A = Option (Authorization × Permission)} (some (a, p)) (some (b, q))
    → (a ≡ b) × (p ≡ q)
needed same = (cc, cc)

module _ (env : Env) (state : AppState) where
  -- A request that the gate has let through as `actor`, to whom the tables allow the permission.
  pub record Permitted (authorization : Authorization) (p : Permission) (w : World) : Type 0 where
    pub actor : VerifiedUser
    pub v : World
    pub verified : Verified env state authorization w actor v
    pub permitted : may env actor p v ≡ true

  same_needs :
      (a b : Authorization) (p q : Permission) (w : World)
      → ◌≡◌ {A = Option (Authorization × Permission)} (some (a, p)) (some (b, q))
      → Permitted a p w
      → Permitted b q w
  same_needs a b p q w same h =
      let (same_header, same_permission) = needed same in rw (← same_header, ← same_permission) h

  module _ {A : Type 0} (authorization : Authorization) (p : Permission)
      (handler : VerifiedUser → App AppError A) (reply : A → App AppError Reply) where
    gated-ok :
        ((actor : VerifiedUser) (v v' : World) (a : A)
          → handler actor v ≡ (ok a, v')
          → may env actor p v ≡ true)
        → (w : World) {w' : World} {r : Reply}
        → (verified_user env state authorization >>= λ actor. handler actor >>= reply) w
          ≡ (ok r, w')
        → Permitted authorization p w
    gated-ok guard w e = after_any _ _ e λ actor v gate r1. after_any _ _ r1 λ a v' handled r2.
        record {
          actor = actor;
          v = v;
          verified = verified_user-Verified env state authorization w gate;
          permitted = guard actor v v' a handled;
        }

    gated-err :
        (actor : VerifiedUser) (w v : World)
        → verified_user env state authorization w ≡ (ok actor, v)
        → handler actor v ≡ (err forbidden, seen env v)
        → (verified_user env state authorization >>= λ actor. handler actor >>= reply) w
          ≡ (err forbidden, seen env v)
    gated-err actor w v gate refused = bind-ok _ _ w gate ∙ bind-err _ _ v refused

  -- A route for administrators succeeds only for a request whose header has a token that decodes,
  -- for a user that is in the tables with a verified e-mail address, and to which the tables allow
  -- the permission that the route asks for, by its role or a grant and without a revocation.
  pub serve-Permitted :
      (r : Request) (authorization : Authorization) (p : Permission) (w w' : World) (reply : Reply)
      → needs r ≡ some (authorization, p)
      → serve env state r w ≡ (ok reply, w')
      → Permitted authorization p w
  unfolding serve Admin.list_users Admin.set_role Admin.set_active Admin.grant_permission
  serve-Permitted (Request.list_users a page) authorization p w w' reply same e =
      same_needs a authorization users_read p w same (
        gated-ok a users_read (λ actor. Admin.list_users env actor page)
          (λ found. pure (Reply.users found)) (λ actor v v' x. guarded-ok env actor users_read _ v)
          w e)
  serve-Permitted (Request.set_role a id role) authorization p w w' reply same e =
      same_needs a authorization users_assign_roles p w same (
        gated-ok a users_assign_roles (λ actor. Admin.set_role env actor id role)
          (λ code. pure (Reply.status code))
          (λ actor v v' x. guarded-ok env actor users_assign_roles _ v) w e)
  serve-Permitted (Request.set_active a id active) authorization p w w' reply same e =
      same_needs a authorization users_manage p w same (
        gated-ok a users_manage (λ actor. Admin.set_active env actor id active)
          (λ code. pure (Reply.status code)) (λ actor v v' x. guarded-ok env actor users_manage _ v)
          w e)
  serve-Permitted (Request.grant_permission a id body) authorization p w w' reply same e =
      same_needs a authorization users_assign_roles p w same (
        gated-ok a users_assign_roles (λ actor. Admin.grant_permission env actor id body)
          (λ code. pure (Reply.status code))
          (λ actor v v' x. guarded-ok env actor users_assign_roles _ v) w e)
  serve-Permitted _ authorization p w w' reply same e = cc

  -- Who is let through by the gate without being allowed the permission that the route asks for
  -- gets the answer "forbidden", and no table is changed, if the query of the permissions is
  -- answered.
  pub serve-forbidden :
      (r : Request) (authorization : Authorization) (p : Permission) (actor : VerifiedUser)
      (w v : World)
      → needs r ≡ some (authorization, p)
      → verified_user env state authorization w ≡ (ok actor, v)
      → env.fault v.effects ≡ clean
      → may env actor p v ≡ false
      → serve env state r w ≡ (err forbidden, seen env v)
  unfolding serve Admin.list_users Admin.set_role Admin.set_active Admin.grant_permission
  serve-forbidden (Request.list_users a page) authorization p actor w v same gate answered denied =
      let (same_header, same_permission) = needed same in
      gated-err a users_read (λ actor. Admin.list_users env actor page)
        (λ found. pure (Reply.users found)) actor w v (rw same_header gate)
        (guarded-err env actor users_read _ v answered (rw same_permission denied))
  serve-forbidden (Request.set_role a id role) authorization p actor w v same gate answered denied =
      let (same_header, same_permission) = needed same in
      gated-err a users_assign_roles (λ actor. Admin.set_role env actor id role)
        (λ code. pure (Reply.status code)) actor w v (rw same_header gate)
        (guarded-err env actor users_assign_roles _ v answered (rw same_permission denied))
  serve-forbidden (Request.set_active a id active) authorization p actor w v same gate answered
        denied =
      let (same_header, same_permission) = needed same in
      gated-err a users_manage (λ actor. Admin.set_active env actor id active)
        (λ code. pure (Reply.status code)) actor w v (rw same_header gate)
        (guarded-err env actor users_manage _ v answered (rw same_permission denied))
  serve-forbidden (Request.grant_permission a id body) authorization p actor w v same gate answered
        denied =
      let (same_header, same_permission) = needed same in
      gated-err a users_assign_roles (λ actor. Admin.grant_permission env actor id body)
        (λ code. pure (Reply.status code)) actor w v (rw same_header gate)
        (guarded-err env actor users_assign_roles _ v answered (rw same_permission denied))
  serve-forbidden _ authorization p actor w v same gate answered denied = cc
