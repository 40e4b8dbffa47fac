-- ===== src/Tests/Disabled.antt =====
-- A login of the administrator, after the administrator has disabled the user.
use rust_generic_user_backen.Base.{◌≡◌, refl, false, ◌==◌}
use rust_generic_user_backen.Base.Int.{pos, mul_i64, ◌*ℤ◌, ◌+ℤ◌}
use rust_generic_user_backen.Base.Result.{ok}
use rust_generic_user_backen.Base.Text.{show}
use rust_generic_user_backen.Core.Role
use rust_generic_user_backen.Auth.Password.{verify_password}
use rust_generic_user_backen.Auth.Tokens.{generate_refresh_token, hash_refresh_token}
use rust_generic_user_backen.Auth.Jwt.{issue, claims_at, unix_timestamp}
use rust_generic_user_backen.Auth.Permissions.{require, load_permissions, as_str}
use rust_generic_user_backen.Db.Permissions.{
  gather, permission_names, role_perms, granted, revoked, distinct, not_in, select_permissions,
  permissions_for,
}
use rust_generic_user_backen.Db.Users
use rust_generic_user_backen.Db.Users.{
  update_active, select_by_email, find_by_email, same_email, select_user, user_of, secret_of,
}
use rust_generic_user_backen.Db.RefreshTokens.{insert_refresh_token, store_refresh_token}
use rust_generic_user_backen.App.{
  World, pure, lift, ok_or, raise_if, map_err, db, query, settle, draw, now_utc, new_v4, fill_bytes,
  ◌>>=◌,
}
use rust_generic_user_backen.App.Inversion.{with_state}
use rust_generic_user_backen.Api.Extract.{VerifiedUser}
use rust_generic_user_backen.Api.Admin.{authorize, set_active}
use rust_generic_user_backen.Api.Admin.Disabled.{set_active-no_login}
use rust_generic_user_backen.Api.Auth.Tokens.{TokenPair, issue_tokens}
use rust_generic_user_backen.Api.Auth.Session.{LoginReq, login}
use rust_generic_user_backen.Api.Auth.Session.Credentials.{LoggedIn}
use rust_generic_user_backen.Tests.Toy.{codes, digits, toy, alone, state, world}

abbrev admin : VerifiedUser
admin = record { user_id = 1; role = Role.admin }

disabled_run : (set_active toy admin 2 false world).0 ≡ ok 204
unfolding set_active Users.set_active update_active authorize load_permissions permissions_for
    select_permissions gather permission_names role_perms granted revoked distinct not_in require
    as_str pure lift map_err db query settle ◌>>=◌
disabled_run = refl

abbrev disabled : World
disabled = (set_active toy admin 2 false world).1

abbrev body : LoginReq
body = record { email = "a@x"; password = "password" }

abbrev pair : TokenPair
pair = record { access_token = "s.1"; refresh_token = "5"; access_expires_in = pos 900 }

login_run : (login toy state body disabled).0 ≡ ok pair
unfolding set_active Users.set_active update_active authorize load_permissions permissions_for
    select_permissions gather permission_names role_perms granted revoked distinct not_in require
    as_str pure lift map_err db query settle ◌>>=◌ login find_by_email select_by_email select_user
    same_email user_of secret_of verify_password ok_or raise_if issue_tokens hash_refresh_token
    now_utc draw issue new_v4 claims_at generate_refresh_token fill_bytes store_refresh_token
    insert_refresh_token mul_i64 unix_timestamp ◌+ℤ◌ ◌*ℤ◌ codes digits show
login_run = refl

set_active-no_login_example :
    (r : LoggedIn toy state body disabled pair (login toy state body disabled).1) × ((r.row.id == 2)
      ≡ false)
set_active-no_login_example =
    set_active-no_login toy state admin 2 body world disabled _ 204 pair (alone _)
      (with_state (set_active toy admin 2 false) world disabled_run)
      (with_state (login toy state body) disabled login_run)
