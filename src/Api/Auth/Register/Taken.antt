-- ===== src/Api/Auth/Register/Taken.antt =====
-- Registration with an e-mail address that has an account.
use rust_generic_user_backen.Base.{
  ℕ, ◌+◌, String, ◌≡◌, refl, ap, ◌∙◌, some, true, ◌||◌, List, [], ◌∷◌, ◌==◌, arith, any, find,
  str_eq,
}
use rust_generic_user_backen.Base.Int.{ℤ}
use rust_generic_user_backen.Base.Result
use rust_generic_user_backen.Base.Result.{Result, ok, err}
use rust_generic_user_backen.Base.Text.{◌<>◌}
use rust_generic_user_backen.Core.Role
use rust_generic_user_backen.Core.Error.{database, from_validation_errors}
use rust_generic_user_backen.Core.User.{Uuid, OffsetDateTime}
use rust_generic_user_backen.Auth.Password.{hash_password}
use rust_generic_user_backen.Auth.Effects.{hash_password-run}
use rust_generic_user_backen.Db.Schema.{Db, RoleRow, UserRow, unique_violation, sqlx}
use rust_generic_user_backen.Db.Users.{
  NewUser, create_user, insert_user, select_role_id, same_email,
}
use rust_generic_user_backen.Env.{Env, clean}
use rust_generic_user_backen.App.{World, lift, db, query, from_db_error}
use rust_generic_user_backen.App.Forward.{seen, bind-ok, bind-err, query-answered, db-err}
use rust_generic_user_backen.App.Inversion.{tick}
use rust_generic_user_backen.Api.State.{AppState}
use rust_generic_user_backen.Api.Error.{into_response}
use rust_generic_user_backen.Api.Validate.{check_account}
use rust_generic_user_backen.Api.Auth.Register.{RegisterReq, app_port, register_user}
use rust_generic_user_backen.Api.Auth.Register.Enrolled.{new_account}

accepted :
    (env : Env) (email password : String)
    → env.valid_email email ≡ true
    → env.valid_min_length 8 password ≡ true
    → Result.map_err from_validation_errors (check_account env email password) ≡ ok tt
unfolding check_account
accepted env email password e p = rw (e, p) refl

select_role_id-named :
    (role : Role.Role) (now : OffsetDateTime) (fresh : Uuid) (d : Db) {r : RoleRow}
    → find (λ (r : RoleRow). str_eq r.name (Role.as_str role)) d.roles ≡ some r
    → select_role_id role now fresh d ≡ (ok r.id, d)
unfolding select_role_id
select_role_id-named role now fresh d e = rw (e, select_role_id) refl

module _ (env : Env) (new : NewUser) where
  taken_id :
      (fresh : Uuid) (users : List UserRow)
      → any (λ (u : UserRow). same_email env u.email new.email) users ≡ true
      → any (λ (u : UserRow). u.id == fresh || same_email env u.email new.email) users ≡ true
  taken_id fresh [] h = h
  taken_id fresh (u ∷ users) h = ground (arith, taken_id fresh users)

  insert_user-taken :
      (role_id : ℕ) (now : OffsetDateTime) (fresh : Uuid) (d : Db)
      → any (λ (u : UserRow). same_email env u.email new.email) d.users ≡ true
      → insert_user env new role_id now fresh d ≡ (err (sqlx unique_violation), d)
  unfolding insert_user
  insert_user-taken role_id now fresh d h = rw (taken_id fresh d.users h) refl

  create_user-taken :
      (w : World) {r : RoleRow}
      → env.fault w.effects ≡ clean
      → env.fault (w.effects + 1) ≡ clean
      → find
          (λ (r : RoleRow). str_eq r.name (Role.as_str new.role))
          (env.others w.effects w.db).roles
        ≡ some r
      → any
          (λ (u : UserRow). same_email env u.email new.email)
          (env.others (w.effects + 1) (env.others w.effects w.db)).users
        ≡ true
      → create_user env new w ≡ (err (sqlx unique_violation), seen env (seen env w))
  unfolding create_user
  create_user-taken w {r} first second role h =
      bind-ok (query env (select_role_id new.role)) _ w (
        query-answered env (select_role_id new.role) w first
          (select_role_id-named new.role _ _ _ role))
      ∙ bind-err (query env (insert_user env new r.id)) _ (seen env w) (
          query-answered env (insert_user env new r.id) (seen env w) second
            (insert_user-taken r.id _ _ _ h))

module _ (env : Env) (state : AppState) (body : RegisterReq) where
  -- A registration that passes its checks, with an e-mail address that an account has, fails when
  -- the user is inserted, as a database error that is answered with the status 500, if its
  -- statements are answered, the password can be hashed and the role of a plain user exists.
  pub register_user-taken :
      (ttl_min ttl_days : ℤ) (w : World) (phc : String) (r : RoleRow)
      → env.valid_email body.email ≡ true
      → env.valid_min_length 8 body.password ≡ true
      → env.argon2_hash body.password (env.salt w.effects) ≡ ok phc
      → env.fault (w.effects + 1) ≡ clean
      → env.fault (w.effects + 1 + 1) ≡ clean
      → find
          (λ (r : RoleRow). str_eq r.name (Role.as_str Role.user))
          (env.others (w.effects + 1) w.db).roles
        ≡ some r
      → any
          (λ (u : UserRow). same_email env u.email (some body.email))
          (env.others (w.effects + 1 + 1) (env.others (w.effects + 1) w.db)).users
        ≡ true
      → (register_user env (app_port env state) body ttl_min ttl_days w ≡ (
        err (database ("sqlx: " <> env.sqlx_display unique_violation)),
        seen env (seen env (tick w)),
      ))
        × ((into_response (database ("sqlx: " <> env.sqlx_display unique_violation))).status ≡ 500)
  unfolding register_user app_port lift from_db_error into_response
  register_user-taken ttl_min ttl_days w phc r e p hashed first second role h = (
    bind-ok
          (lift
            (Result.map_err from_validation_errors (check_account env body.email body.password)))
          _ w (ap (λ r. (r, w)) (accepted env body.email body.password e p))
        ∙ bind-ok (hash_password env body.password) _ w
            (hash_password-run env body.password w hashed)
        ∙ bind-err (db env (create_user env (new_account env state body phc))) _ (tick w) (
            db-err env (create_user env (new_account env state body phc)) (tick w) (
              create_user-taken env (new_account env state body phc) (tick w) first second role h)),
    refl,
  )
