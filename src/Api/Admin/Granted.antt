-- ===== src/Api/Admin/Granted.antt =====
-- `grant_permission` of crates/api/src/routes/admin.rs, and what the gates ask afterwards.
use rust_generic_user_backen.Base.{ℕ, String, ◌≡◌}
use rust_generic_user_backen.Base.Result.{ok}
use rust_generic_user_backen.Core.User.{Uuid}
use rust_generic_user_backen.Db.Schema.{Db, PermissionRow}
use rust_generic_user_backen.Db.Permissions.{upsert_permission}
use rust_generic_user_backen.Db.Permissions.Allowed.{allowed}
use rust_generic_user_backen.Db.Permissions.Override.{Names, upsert_permission-allowed}
use rust_generic_user_backen.Env.{Env}
use rust_generic_user_backen.App.{World}
use rust_generic_user_backen.App.Inversion.{after_any, map_err-run-ok, pure-eq-ok, query-eq-ok}
use rust_generic_user_backen.App.Keeps.{OthersKeep, Keeps, run-keeps, keeps_rules}
use rust_generic_user_backen.Auth.Permissions.{Permission, load_permissions}
use rust_generic_user_backen.Db.Permissions.{permissions_for}
use rust_generic_user_backen.Db.Program.{select_permissions_keeps}
use rust_generic_user_backen.Api.Extract.{VerifiedUser}
use rust_generic_user_backen.Api.Admin.{GrantPermReq, authorize, grant_permission}

-- Just one permission has the name.
abbrev pub IsName : String → Db → Type 0
IsName name d = (p : PermissionRow) × Names name d p

authorize-Keeps :
    (env : Env) {P : Db → Type 0}
    → OthersKeep env P
    → (user : VerifiedUser) (p : Permission) → Keeps P (authorize env user p)
unfolding authorize load_permissions permissions_for
authorize-Keeps env others user p = search (keeps_rules, select_permissions_keeps, others) depth 12

-- A grant that was answered has decided the permission: the user is allowed it then if the request
-- grants it, and not allowed it if the request revokes it, whatever its role has, if just one
-- permission has the name and the other requests keep that so.
pub grant_permission-decides :
    (env : Env) (user : VerifiedUser) (id : Uuid) (body : GrantPermReq) (w w' : World) (status : ℕ)
    → OthersKeep env (IsName body.permission)
    → IsName body.permission w.db
    → grant_permission env user id body w ≡ (ok status, w')
    → allowed id body.permission w'.db ≡ body.granted
unfolding grant_permission
grant_permission-decides env user id body w w' status others named e =
    after_any _ _ e λ _ v authorized r1. after_any _ _ r1 λ _ v2 r2 r3.
      let ran =
        query-eq-ok env (upsert_permission id body.permission body.granted)
          (map_err-run-ok _ _ r2) in
      let named =
        run-keeps (IsName body.permission) _ (authorize-Keeps env others user _) authorized named in
      let (p, names) = others.at v.effects v.db named in
      rw (← (pure-eq-ok r3).1)
        (upsert_permission-allowed id body.permission body.granted _ _ _ _ p names ran.outcome)
