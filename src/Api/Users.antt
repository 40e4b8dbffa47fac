-- ===== src/Api/Users.antt =====
-- crates/api/src/routes/users.rs.
use rust_generic_user_backen.Base.{String, List}
use rust_generic_user_backen.Core.User.{User}
use rust_generic_user_backen.Core.Error.{AppError, not_found}
use rust_generic_user_backen.Db.Users.{find_by_id}
use rust_generic_user_backen.Db.Permissions.{permissions_for}
use rust_generic_user_backen.Env.{Env}
use rust_generic_user_backen.App.{App, ok_or, db, ◌>>=◌}
use rust_generic_user_backen.Api.Extract.{AuthUser}

module _ (env : Env) where
  unfoldable pub me : AuthUser → App AppError User
  me user = do u ← db env (find_by_id env user.user_id); ok_or u not_found

  unfoldable pub my_permissions : AuthUser → App AppError (List String)
  my_permissions user = db env (permissions_for env user.user_id)
