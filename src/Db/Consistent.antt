-- ===== src/Db/Consistent.antt =====
-- The constraints of migrations/0001_init_auth_schema.sql as a predicate on the tables: the keys
-- and the references.
pub mod Keys
pub mod Ids
pub mod References
pub mod Tables
pub mod Kept
use rust_generic_user_backen.Base.{
  ℕ, String, Bool, true, ◌&&◌, ◌≡◌, List, ◌==◌, str_eq, any, all, apart,
}
use rust_generic_user_backen.Core.User.{Uuid}
use rust_generic_user_backen.Db.Schema.{
  RoleRow, PermissionRow, RolePermissionRow, UserRow, OauthIdentityRow, RefreshTokenRow,
  OneTimeTokenRow, UserPermissionRow, Db,
}
use rust_generic_user_backen.Db.Users.{same_email}
use rust_generic_user_backen.Db.OauthIdentities.{is_identity}
use rust_generic_user_backen.Db.RefreshTokens.{has_hash}
use rust_generic_user_backen.Env.{Env}

-- The tests by which two rows have the same key.
abbrev pub same_id : UserRow → UserRow → Bool
same_id u v = v.id == u.id

abbrev pub same_address : Env → UserRow → UserRow → Bool
same_address env u v = same_email env v.email u.email

abbrev pub same_hash : RefreshTokenRow → RefreshTokenRow → Bool
same_hash s t = has_hash s.token_hash t

abbrev pub same_token : OneTimeTokenRow → OneTimeTokenRow → Bool
same_token s t = str_eq t.token_hash s.token_hash

abbrev pub same_identity : OauthIdentityRow → OauthIdentityRow → Bool
same_identity a b = is_identity a.provider a.subject b

abbrev pub same_override : UserPermissionRow → UserPermissionRow → Bool
same_override a b = b.user_id == a.user_id && b.permission_id == a.permission_id

abbrev pub same_session_id : RefreshTokenRow → RefreshTokenRow → Bool
same_session_id s t = t.id == s.id

abbrev pub same_token_id : OneTimeTokenRow → OneTimeTokenRow → Bool
same_token_id s t = t.id == s.id

abbrev pub same_identity_id : OauthIdentityRow → OauthIdentityRow → Bool
same_identity_id a b = b.id == a.id

abbrev pub same_role_id : RoleRow → RoleRow → Bool
same_role_id r s = s.id == r.id

abbrev pub same_role_name : RoleRow → RoleRow → Bool
same_role_name r s = str_eq s.name r.name

abbrev pub same_permission_id : PermissionRow → PermissionRow → Bool
same_permission_id p q = q.id == p.id

abbrev pub same_permission_name : PermissionRow → PermissionRow → Bool
same_permission_name p q = str_eq q.name p.name

abbrev pub same_role_permission : RolePermissionRow → RolePermissionRow → Bool
same_role_permission a b = b.role_id == a.role_id && b.permission_id == a.permission_id

-- References to a role and to a permission.
abbrev pub has_role_id : Db → ℕ → Bool
has_role_id d id = any (λ (r : RoleRow). r.id == id) d.roles

abbrev pub has_permission_id : Db → ℕ → Bool
has_permission_id d id = any (λ (p : PermissionRow). p.id == id) d.permissions

-- A reference to a user.
abbrev pub has_user : Db → Uuid → Bool
has_user d id = any (λ (u : UserRow). u.id == id) d.users

abbrev pub Refers {ℓ} : {A : Type ℓ} → (Db → List A) → (A → Uuid) → Db → Type 0
Refers rows owner d = all (λ a. has_user d (owner a)) (rows d) ≡ true

-- The constraints: every primary and unique key of the tables, and every reference of a row.
pub data Constraint : Type 0 where
  user_keys token_hashes verification_hashes reset_hashes identity_subjects : Constraint
  user_overrides role_ids sessions verifications resets identities overrides : Constraint
  session_ids verification_ids reset_ids identity_ids role_keys permission_keys : Constraint
  role_permission_keys role_permission_references override_permissions : Constraint

abbrev pub Holds : Env → Constraint → Db → Type 0
Holds env user_keys d = (apart same_id d.users ≡ true) × (apart (same_address env) d.users ≡ true)
Holds env token_hashes d = apart same_hash d.refresh_tokens ≡ true
Holds env verification_hashes d = apart same_token d.email_verification_tokens ≡ true
Holds env reset_hashes d = apart same_token d.password_reset_tokens ≡ true
Holds env identity_subjects d = apart same_identity d.oauth_identities ≡ true
Holds env user_overrides d = apart same_override d.user_permissions ≡ true
Holds env role_ids d =
    all (λ (u : UserRow). any (λ (r : RoleRow). r.id == u.role_id) d.roles) d.users ≡ true
Holds env sessions d = Refers (λ d. d.refresh_tokens) (λ t. t.user_id) d
Holds env verifications d = Refers (λ d. d.email_verification_tokens) (λ t. t.user_id) d
Holds env resets d = Refers (λ d. d.password_reset_tokens) (λ t. t.user_id) d
Holds env identities d = Refers (λ d. d.oauth_identities) (λ a. a.user_id) d
Holds env overrides d = Refers (λ d. d.user_permissions) (λ a. a.user_id) d
Holds env session_ids d = apart same_session_id d.refresh_tokens ≡ true
Holds env verification_ids d = apart same_token_id d.email_verification_tokens ≡ true
Holds env reset_ids d = apart same_token_id d.password_reset_tokens ≡ true
Holds env identity_ids d = apart same_identity_id d.oauth_identities ≡ true
Holds env role_keys d = (apart same_role_id d.roles ≡ true) × (apart same_role_name d.roles ≡ true)
Holds env permission_keys d =
    (apart same_permission_id d.permissions ≡ true)
    × (apart same_permission_name d.permissions ≡ true)
Holds env role_permission_keys d = apart same_role_permission d.role_permissions ≡ true
Holds env role_permission_references d =
    all (λ (a : RolePermissionRow). has_role_id d a.role_id && has_permission_id d a.permission_id)
      d.role_permissions
    ≡ true
Holds env override_permissions d =
    all (λ (a : UserPermissionRow). has_permission_id d a.permission_id) d.user_permissions ≡ true

pub record IsConsistent (env : Env) (d : Db) : Type 0 where
  pub at : (c : Constraint) → Holds env c d
