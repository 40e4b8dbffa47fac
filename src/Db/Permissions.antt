-- ===== src/Db/Permissions.antt =====
-- `permissions_for` of crates/db/src/users.rs, and the statement of `grant_permission` in
-- crates/api/src/routes/admin.rs.
pub mod Allowed
pub mod Override
use rust_generic_user_backen.Base.{
  ℕ, String, Bool, false, not, ◌&&◌, ◌||◌, none, some, List, [], ◌∷◌, ◌++◌, ◌==◌, str_eq, any, find,
  update, if◌then◌else◌,
}
use rust_generic_user_backen.Base.Result.{ok, err}
use rust_generic_user_backen.Core.User.{Uuid}
use rust_generic_user_backen.Db.Schema.{
  PermissionRow, RolePermissionRow, UserRow, UserPermissionRow, Db, foreign_key_violation, DbError,
  sqlx, Statement,
}
use rust_generic_user_backen.Env.{Env}
use rust_generic_user_backen.App.{App, query}

abbrev pub contains : String → List String → Bool
contains s [] = false
contains s (t ∷ rest) = str_eq t s || contains s rest

-- A part of a query: of the rows that pass a test, the names that each gives.
unfoldable pub gather {ℓ} : {A : Type ℓ} → (A → Bool) → (A → List String) → List A → List String
gather p f [] = []
gather p f (x ∷ rest) = if p x then f x ++ gather p f rest else gather p f rest

-- `JOIN permissions p ON p.id = ...`
unfoldable pub permission_names : ℕ → Db → List String
unfolding gather
permission_names id d =
    gather (λ (p : PermissionRow). p.id == id) (λ (p : PermissionRow). p.name ∷ []) d.permissions

unfoldable pub role_perms : Uuid → Db → List String
unfolding gather permission_names
role_perms user_id d =
    gather (λ (u : UserRow). u.id == user_id)
      (λ (u : UserRow).
        gather (λ (rp : RolePermissionRow). rp.role_id == u.role_id)
          (λ (rp : RolePermissionRow). permission_names rp.permission_id d) d.role_permissions)
      d.users

unfoldable pub granted : Uuid → Db → List String
unfolding gather permission_names
granted user_id d =
    gather (λ (up : UserPermissionRow). up.user_id == user_id && up.granted)
      (λ (up : UserPermissionRow). permission_names up.permission_id d) d.user_permissions

unfoldable pub revoked : Uuid → Db → List String
unfolding gather permission_names
revoked user_id d =
    gather (λ (up : UserPermissionRow). up.user_id == user_id && not up.granted)
      (λ (up : UserPermissionRow). permission_names up.permission_id d) d.user_permissions

-- `UNION` keeps one of equal names.
unfoldable pub distinct : List String → List String
distinct [] = []
distinct (s ∷ rest) = let others = distinct rest in if contains s others then others else s ∷ others

-- `WHERE name NOT IN (SELECT name FROM revoked)`; no name is NULL.
unfoldable pub not_in : List String → List String → List String
not_in out [] = []
not_in out (s ∷ rest) = if contains s out then not_in out rest else s ∷ not_in out rest

unfoldable pub select_permissions : Uuid → Statement (List String)
unfolding role_perms granted revoked distinct not_in
select_permissions user_id now fresh d =
    (ok (not_in (revoked user_id d) (distinct (role_perms user_id d ++ granted user_id d))), d)

-- `INSERT INTO user_permissions ... SELECT ... ON CONFLICT ... DO UPDATE`
unfoldable pub upsert_permission : Uuid → String → Bool → Statement Unit
upsert_permission user_id name grant now fresh d =
    elim (find (λ (p : PermissionRow). str_eq p.name name) d.permissions) [
      | none ↦ (ok tt, d)
      | some p ↦
          let mine =
            λ (up : UserPermissionRow). up.user_id == user_id && up.permission_id == p.id in
          if any mine d.user_permissions
          then (
            ok tt,
            record d {
              user_permissions =
                  update mine (λ up. record up { granted = grant }) d.user_permissions;
            },
          )
          else if any (λ (u : UserRow). u.id == user_id) d.users
          then (
            ok tt,
            record d {
              user_permissions =
                  record { user_id = user_id; permission_id = p.id; granted = grant }
                  ∷ d.user_permissions;
            },
          )
          else (err (sqlx foreign_key_violation), d)
    ]

module _ (env : Env) where
  unfoldable pub permissions_for : Uuid → App DbError (List String)
  permissions_for user_id = query env (select_permissions user_id)
