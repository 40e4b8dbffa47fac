-- ===== src/Api/Admin/Authorized.antt =====
-- The permission check with which every handler of crates/api/src/routes/admin.rs begins.
use rust_generic_user_backen.Base.{
  ◌≡◌, refl, ap, ◌∙◌, Bool, true, false, arith, Bool-cases, inl, inr,
}
use rust_generic_user_backen.Base.Result.{ok, err}
use rust_generic_user_backen.Core.User.{Uuid}
use rust_generic_user_backen.Core.Error.{AppError, forbidden}
use rust_generic_user_backen.Auth.Permissions.{Permission, require, load_permissions, as_str}
use rust_generic_user_backen.Db.Schema.{Db}
use rust_generic_user_backen.Db.Permissions.{permissions_for}
use rust_generic_user_backen.Db.Permissions.Allowed.{
  allowed, permissions_of, permissions_of-allowed, select_permissions-reads,
}
use rust_generic_user_backen.Env.{Env, clean}
use rust_generic_user_backen.App.{World, App, lift, ◌>>=◌}
use rust_generic_user_backen.App.Forward.{seen, bind-ok, bind-err, read-clean}
use rust_generic_user_backen.App.Inversion.{after_any, after_read, lift-eq-ok}
use rust_generic_user_backen.Api.Extract.{VerifiedUser}
use rust_generic_user_backen.Api.Admin.{authorize}

require-ok :
    (id : Uuid) (d : Db) (p : Permission)
    → require (permissions_of id d) p ≡ ok tt
    → allowed id (as_str p) d ≡ true
unfolding require
require-ok id d p h = elim (Bool-cases (allowed id (as_str p) d)) [
  | inl t ↦ t
  | inr f ↦ ground (arith, permissions_of-allowed id (as_str p) d, f, h)
]

require-err :
    (id : Uuid) (d : Db) (p : Permission)
    → allowed id (as_str p) d ≡ false
    → require (permissions_of id d) p ≡ err forbidden
unfolding require
require-err id d p h = rw (permissions_of-allowed id (as_str p) d ∙ h) refl

module _ (env : Env) (user : VerifiedUser) (p : Permission) where
  authorize-ok :
      (w : World) {w' : World} {done : Unit}
      → authorize env user p w ≡ (ok done, w')
      → allowed user.user_id (as_str p) (env.others w.effects w.db) ≡ true
  unfolding authorize load_permissions permissions_for
  authorize-ok w e =
      after_read env w _ _ (select_permissions-reads user.user_id) _ e
        λ v seen counted r. require-ok user.user_id _ p (lift-eq-ok _ r).0

  authorize-err :
      (w : World)
      → env.fault w.effects ≡ clean
      → allowed user.user_id (as_str p) (env.others w.effects w.db) ≡ false
      → authorize env user p w ≡ (err forbidden, seen env w)
  unfolding authorize load_permissions permissions_for lift
  authorize-err w answered h =
      bind-ok _ _ w (read-clean env _ _ (select_permissions-reads user.user_id) w answered)
      ∙ ap (λ r. (r, seen env w)) (require-err user.user_id _ p h)

  -- A handler that begins with `authorize`.
  module _ {A : Type 0} (f : Unit → App AppError A) where
    pub guarded-ok :
        (w : World) {w' : World} {a : A}
        → (authorize env user p >>= f) w ≡ (ok a, w')
        → allowed user.user_id (as_str p) (env.others w.effects w.db) ≡ true
    guarded-ok w e = after_any _ f e λ done v e1 r. authorize-ok w e1

    pub guarded-err :
        (w : World)
        → env.fault w.effects ≡ clean
        → allowed user.user_id (as_str p) (env.others w.effects w.db) ≡ false
        → (authorize env user p >>= f) w ≡ (err forbidden, seen env w)
    guarded-err w answered h = bind-err _ f w (authorize-err w answered h)

-- Whether the tables allow the user a permission when its handler reads them.
abbrev pub may : Env → VerifiedUser → Permission → World → Bool
may env user p w = allowed user.user_id (as_str p) (env.others w.effects w.db)
