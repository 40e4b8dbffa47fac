-- ===== src/Db/Users.antt =====
-- The functions of crates/db/src/users.rs on the tables `users` and `roles`.
pub mod Lookup
pub mod Every
pub mod Created
use mathlib.Core.Option
use rust_generic_user_backen.Base.{
  ℕ, String, Bool, true, false, not, ◌&&◌, ◌||◌, Option, none, some, List, [], ◌∷◌, map, ◌==◌,
  str_eq, is_some, unwrap_or, find, any, update, take, drop, if◌then◌else◌,
}
use rust_generic_user_backen.Base.Int.{ℤ, pos, negsuc, leb_ℤ}
use rust_generic_user_backen.Base.Result.{ok, err}
use rust_generic_user_backen.Core.Role
use rust_generic_user_backen.Core.Role.{Role}
use rust_generic_user_backen.Core.User.{Uuid, User}
use rust_generic_user_backen.Db.Schema.{
  RoleRow, UserRow, Db, row_not_found, unique_violation, foreign_key_violation, other, DbError,
  sqlx, Statement,
}
use rust_generic_user_backen.Env.{Env}
use rust_generic_user_backen.App.{App, query, pure, ◌>>=◌}

pub record NewUser : Type 0 where
  pub email : Option String
  pub password_hash : Option String
  pub display_name : Option String
  pub role : Role
  pub email_verified : Bool

pub record UserWithSecret : Type 0 where
  pub user : User
  pub password_hash : Option String

-- `JOIN roles r ON r.id = u.role_id`
abbrev pub role_name : Db → ℕ → Option String
role_name d id = Option.map (λ r. r.name) (find (λ (r : RoleRow). r.id == id) d.roles)

-- The first user that passes the test, with the name of its role.
unfoldable pub select_user : (UserRow → Bool) → Db → Option (UserRow × String)
select_user p d = elim (find (λ u. p u && is_some (role_name d u.role_id)) d.users) [
  | none ↦ none
  | some u ↦ Option.map (λ n. (u, n)) (role_name d u.role_id)
]

unfoldable pub user_of : UserRow × String → User
user_of (u, name) = record {
  id = u.id;
  email = u.email;
  display_name = u.display_name;
  role = unwrap_or (Role.parse name) Role.user;
  is_active = u.is_active;
  email_verified = u.email_verified;
  created_at = u.created_at;
  updated_at = u.updated_at;
}

unfoldable pub secret_of : UserRow × String → UserWithSecret
secret_of (u, name) = record { user = user_of (u, name); password_hash = u.password_hash }

-- `UPDATE users SET ... WHERE id = $n`
abbrev pub update_user : Uuid → (UserRow → UserRow) → Db → Db
update_user id f d = record d { users = update (λ u. u.id == id) f d.users }

-- `ORDER BY created_at DESC`; rows of one time stay in the order of the table.
place : UserRow → List UserRow → List UserRow
place u [] = u ∷ []
place u (v ∷ rest) = if leb_ℤ v.created_at u.created_at then u ∷ v ∷ rest else v ∷ place u rest

unfoldable pub newest_first : List UserRow → List UserRow
unfolding place
newest_first [] = []
newest_first (u ∷ rest) = place u (newest_first rest)

-- The rows of the join, in the order that they are given.
unfoldable pub join_roles : Db → List UserRow → List (UserRow × String)
join_roles d [] = []
join_roles d (u ∷ rest) =
    let more = join_roles d rest in
    elim (role_name d u.role_id) [ none ↦ more | some name ↦ (u, name) ∷ more ]

unfoldable pub select_role_id : Role → Statement ℕ
select_role_id role now fresh d =
    elim (find (λ (r : RoleRow). str_eq r.name (Role.as_str role)) d.roles) [
      | none ↦ (err (sqlx row_not_found), d)
      | some r ↦ (ok r.id, d)
    ]

abbrev has_role : Db → ℕ → Bool
has_role d role_id = any (λ (r : RoleRow). r.id == role_id) d.roles

unfoldable pub update_role : Uuid → ℕ → Statement Unit
update_role user_id role_id now fresh d =
    if any (λ (u : UserRow). u.id == user_id) d.users && not (has_role d role_id)
    then (err (sqlx foreign_key_violation), d)
    else (ok tt, update_user user_id (λ u. record u { role_id = role_id; updated_at = now }) d)

unfoldable pub update_active : Uuid → Bool → Statement Unit
update_active user_id active now fresh d =
    (ok tt, update_user user_id (λ u. record u { is_active = active; updated_at = now }) d)

unfoldable pub update_email_verified : Uuid → Statement Unit
update_email_verified user_id now fresh d =
    (ok tt, update_user user_id (λ u. record u { email_verified = true; updated_at = now }) d)

unfoldable pub update_password : Uuid → String → Statement Unit
update_password user_id phc now fresh d =
    (ok tt, update_user user_id (λ u. record u { password_hash = some phc; updated_at = now }) d)

unfoldable pub select_page : ℤ → ℤ → Statement (List (UserRow × String))
select_page limit (negsuc m) now fresh d = (err (sqlx (other "OFFSET must not be negative")), d)
select_page (negsuc n) (pos m) now fresh d = (err (sqlx (other "LIMIT must not be negative")), d)
select_page (pos n) (pos m) now fresh d =
    (ok (take n (drop m (join_roles d (newest_first d.users)))), d)

unfoldable pub select_by_id : Uuid → Statement (Option User)
select_by_id id now fresh d = (ok (Option.map user_of (select_user (λ u. u.id == id) d)), d)

-- The user that `create_user` answers with, from the row that RETURNING gives.
created : Role → UserRow → User
created role u = record {
  id = u.id;
  email = u.email;
  display_name = u.display_name;
  role = role;
  is_active = u.is_active;
  email_verified = u.email_verified;
  created_at = u.created_at;
  updated_at = u.updated_at;
}

module _ (env : Env) where
  -- Equality of `citext` values; NULL is equal to nothing.
  unfoldable pub same_email : Option String → Option String → Bool
  same_email (some a) (some b) = str_eq (env.citext_key a) (env.citext_key b)
  same_email _ _ = false

  -- `INSERT INTO users ... RETURNING`: the primary key, `email UNIQUE` and the key of the role.
  unfoldable pub insert_user : NewUser → ℕ → Statement UserRow
  insert_user new role_id now fresh d =
      if any (λ (u : UserRow). u.id == fresh || same_email u.email new.email) d.users
      then (err (sqlx unique_violation), d)
      else if not (has_role d role_id)
      then (err (sqlx foreign_key_violation), d)
      else let row : UserRow = record {
        id = fresh;
        email = new.email;
        password_hash = new.password_hash;
        display_name = new.display_name;
        role_id = role_id;
        is_active = true;
        email_verified = new.email_verified;
        created_at = now;
        updated_at = now;
      } in
        (ok row, record d { users = row ∷ d.users })

  unfoldable pub select_by_email : String → Statement (Option UserWithSecret)
  unfolding secret_of
  select_by_email email now fresh d =
      (ok (Option.map secret_of (select_user (λ u. same_email u.email (some email)) d)), d)

  role_id_for : Role → App DbError ℕ
  role_id_for role = query env (select_role_id role)

  unfoldable pub create_user : NewUser → App DbError User
  unfolding role_id_for created
  create_user new = do
    role_id ← role_id_for new.role
    row ← query env (insert_user new role_id)
    pure (created new.role row)

  unfoldable pub find_by_email : String → App DbError (Option UserWithSecret)
  find_by_email email = query env (select_by_email email)

  unfoldable pub find_by_id : Uuid → App DbError (Option User)
  find_by_id id = query env (select_by_id id)

  unfoldable pub list_users : ℤ → ℤ → App DbError (List User)
  list_users limit offset = do rows ← query env (select_page limit offset); pure (map user_of rows)

  unfoldable pub set_role : Uuid → Role → App DbError Unit
  unfolding role_id_for
  set_role user_id role = do role_id ← role_id_for role; query env (update_role user_id role_id)

  unfoldable pub set_active : Uuid → Bool → App DbError Unit
  set_active user_id active = query env (update_active user_id active)

  unfoldable pub mark_email_verified : Uuid → App DbError Unit
  mark_email_verified user_id = query env (update_email_verified user_id)

  unfoldable pub update_password_hash : Uuid → String → App DbError Unit
  update_password_hash user_id phc = query env (update_password user_id phc)
