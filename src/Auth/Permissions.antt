-- ===== src/Auth/Permissions.antt =====
-- crates/auth/src/permissions.rs. A `HashSet<String>` is a list that only `contains` looks into.
use rust_generic_user_backen.Base.{String, List, if◌then◌else◌}
use rust_generic_user_backen.Base.Result.{Result, ok, err}
use rust_generic_user_backen.Core.User.{Uuid}
use rust_generic_user_backen.Core.Error.{AppError, forbidden}
use rust_generic_user_backen.Db.Permissions.{contains, permissions_for}
use rust_generic_user_backen.Env.{Env}
use rust_generic_user_backen.App.{App, db}

pub data Permission : Type 0 where
  users_read users_manage users_assign_roles : Permission
  files_upload files_read_own files_read_all files_delete_own files_delete_any : Permission
  formats_manage_own formats_manage_any mappings_manage_own mappings_manage_any : Permission
  jobs_run : Permission

unfoldable pub as_str : Permission → String
as_str users_read = "users.read"
as_str users_manage = "users.manage"
as_str users_assign_roles = "users.assign_roles"
as_str files_upload = "files.upload"
as_str files_read_own = "files.read_own"
as_str files_read_all = "files.read_all"
as_str files_delete_own = "files.delete_own"
as_str files_delete_any = "files.delete_any"
as_str formats_manage_own = "formats.manage_own"
as_str formats_manage_any = "formats.manage_any"
as_str mappings_manage_own = "mappings.manage_own"
as_str mappings_manage_any = "mappings.manage_any"
as_str jobs_run = "jobs.run"

unfoldable pub require : List String → Permission → Result AppError Unit
require perms p = if contains (as_str p) perms then ok tt else err forbidden

module _ (env : Env) where
  unfoldable pub load_permissions : Uuid → App AppError (List String)
  load_permissions user_id = db env (permissions_for env user_id)
