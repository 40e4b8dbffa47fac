-- ===== src/Api/Cli/Created.antt =====
-- What the create-admin command has done when it prints its line.
use rust_generic_user_backen.Base.{
  ℕ, ◌+◌, String, ◌≡◌, refl, sym, ap, ◌∙◌, none, some, true, ◌&&◌, arith, List, [], ◌∷◌, find,
  str_eq,
}
use rust_generic_user_backen.Base.Result
use rust_generic_user_backen.Base.Result.{Result, ok, err}
use rust_generic_user_backen.Core.Role.{admin, as_str}
use rust_generic_user_backen.Core.Error.{from_validation_errors}
use rust_generic_user_backen.Core.User.{User}
use rust_generic_user_backen.Auth.Effects.{after_hash_password}
use rust_generic_user_backen.Db.Schema.{Db, UserRow, RoleRow, SqlxError}
use rust_generic_user_backen.Db.Connection.{DbConfig, connect}
use rust_generic_user_backen.Db.Users.{NewUser}
use rust_generic_user_backen.Db.Users.Created.{Created, create_user-Created}
use rust_generic_user_backen.Env.{Env}
use rust_generic_user_backen.App.{World, map_err}
use rust_generic_user_backen.App.Keeps.{OthersKeep}
use rust_generic_user_backen.App.Inversion.{
  after_any, after_lift, after_draw, lift-eq-ok, map_err-run-ok, pure-eq-ok, tick,
}
use rust_generic_user_backen.Api.Host.{Host}
use rust_generic_user_backen.Api.Validate.{check_account}
use rust_generic_user_backen.Api.CreateAdmin.{CreateAdminArgs, create_admin_user, pool_port}
use rust_generic_user_backen.Api.Server.{chain_db}
use rust_generic_user_backen.Api.Cli.{create_admin, admin_created, execute, main}

accepted :
    (env : Env) (email password : String) {checked : Unit}
    → Result.map_err from_validation_errors (check_account env email password) ≡ ok checked
    → (env.valid_email email && env.valid_min_length 8 password) ≡ true
unfolding check_account
accepted env email password h = ground (arith, h)

module _ (env : Env) (args : CreateAdminArgs) where
  abbrev pub admin_account : String → NewUser
  admin_account phc = record {
    email = some args.email;
    password_hash = some phc;
    display_name = none;
    role = admin;
    email_verified = true;
  }

  -- The administrator was inserted, with the hash of the password.
  pub record Admin (user : User) (w w' : World) : Type 0 where
    pub valid : (env.valid_email args.email && env.valid_min_length 8 args.password) ≡ true
    pub phc : String
    pub hashed : env.argon2_hash args.password (env.salt w.effects) ≡ ok phc
    pub created : Created env (admin_account phc) user (tick w) w'

  create_admin_user-Admin :
      (w : World) {user : User} {w' : World}
      → create_admin_user env (pool_port env) args w ≡ (ok user, w')
      → Admin user w w'
  unfolding create_admin_user pool_port
  create_admin_user-Admin w e = after_lift _ _ e λ checked c r0.
      after_hash_password env args.password _ r0 λ phc hashed r1. record {
        valid = accepted env args.email args.password c;
        phc = phc;
        hashed = hashed;
        created = create_user-Created env (admin_account phc) (tick w) r1;
      }

-- The role of the user is the one that is named "admin".
abbrev pub IsAdminIn : Db → UserRow → Type 0
IsAdminIn d row =
    (r : RoleRow) × (find (λ (r : RoleRow). str_eq r.name (as_str admin)) d.roles ≡ some r)
    × (row.role_id ≡ r.id)

-- Who was inserted with the role of an administrator has it at the end.
Admin-IsAdminIn :
    (env : Env) (args : CreateAdminArgs) {roles : List RoleRow} {user : User} (w : World)
    {w' : World}
    → OthersKeep env (λ d. d.roles ≡ roles)
    → w.db.roles ≡ roles
    → (a : Admin env args user w w') → IsAdminIn w'.db a.created.row
Admin-IsAdminIn env args w others same a =
    let first = others.at (w.effects + 1) w.db same in
    let kept =
      ap (λ (d : Db). d.roles) a.created.inserted.rest
      ∙ others.at (w.effects + 1 + 1) _ first
      ∙ sym first in
    (
      a.created.role_row,
      ap (find (λ (r : RoleRow). str_eq r.name (as_str admin))) kept ∙ a.created.named,
      a.created.inserted.role,
    )

module _ (env : Env) (host : Host) (email password : String) where
  -- The connection is one effect, and changes nothing else.
  opened :
      (open_pool : ℕ → DbConfig → Result SqlxError Unit) (cfg : DbConfig) (w : World) {v : World}
      → map_err (chain_db env host) (connect env open_pool cfg) w ≡ (ok tt, v)
      → v ≡ tick w
  unfolding connect
  opened open_pool cfg w e =
      sym (lift-eq-ok _ (after_draw env (λ n. open_pool n cfg) _ (map_err-run-ok _ _ e))).1

  -- The create-admin command prints one line when it succeeds. It had an e-mail address and a
  -- password that pass their checks, and has inserted an active user with the address, which no
  -- account had before, verified, and the hash of the password; in the end the role of that user is
  -- the one that is named "admin", if the other requests leave the roles as they are. The line names
  -- that user.
  pub main-Admin :
      (w w' : World) (lines : List String)
      → OthersKeep env (λ d. d.roles ≡ w.db.roles)
      → main env host (some (create_admin email password)) w ≡ (ok lines, w')
      → (user : User) × (a : Admin env
          (record { email = email; password = password })
          user
          (tick w)
          w')
        × IsAdminIn w'.db a.created.row
        × (lines ≡ admin_created env host user ∷ [])
  unfolding main execute
  main-Admin w w' lines others e = after_any _ _ e λ settings v0 e0 r0.
      after_any _ _ r0 λ _ v1 e1 r1. after_any _ _ r1 λ user v2 e2 r2.
        let (same, last) = pure-eq-ok r2 in
        let start = opened _ _ w (rw (← (lift-eq-ok _ e0).1) at e1) in
        let a =
          create_admin_user-Admin env _ (tick w) (rw (start, last) at (map_err-run-ok _ _ e2)) in
        (user, a, Admin-IsAdminIn env _ (tick w) others refl a, sym same)
