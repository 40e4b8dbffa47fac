-- ===== src/Tests/Sessions.antt =====
-- Refreshes, logins and logouts of the administrator.
use rust_generic_user_backen.Base.{none, ◌≡◌, refl, [], ◌∷◌}
use rust_generic_user_backen.Core.Error.{auth}
use rust_generic_user_backen.Auth.Password.{hash_password, verify_password}
use rust_generic_user_backen.App.Forward.{seen}
use rust_generic_user_backen.Api.Auth.Session.Credentials.{
  LoggedIn, login-LoggedIn, Mismatch, account, login-uniform,
}
use rust_generic_user_backen.Api.Router.{Request, serve_all}
use rust_generic_user_backen.Api.Router.SingleUse.{IsStored, refresh-single_use}
use rust_generic_user_backen.Api.Router.Logout.{logout-ends_session}
use rust_generic_user_backen.Base.Int.{pos, mul_i64, ◌*ℤ◌, ◌+ℤ◌}
use rust_generic_user_backen.Base.Result.{ok, err}
use rust_generic_user_backen.Base.Text.{show}
use rust_generic_user_backen.Core.Role.{parse, as_str}
use rust_generic_user_backen.Auth.Tokens.{generate_refresh_token, hash_refresh_token}
use rust_generic_user_backen.Auth.Jwt.{issue, claims_at, unix_timestamp}
use rust_generic_user_backen.Db.RefreshTokens.{
  select_refresh_token, lookup_refresh_token, update_revoked, revoke_refresh_token,
  insert_refresh_token, store_refresh_token,
}
use rust_generic_user_backen.Db.Users.{
  create_user, select_role_id, insert_user, select_by_id, find_by_id, select_by_email,
  find_by_email, same_email, select_user, user_of, secret_of,
}
use rust_generic_user_backen.App.{
  generate_salt, pure, lift, ok_or, raise_if, map_err, db, query, settle, draw, now_utc, new_v4,
  fill_bytes, ◌>>=◌,
}
use rust_generic_user_backen.App.Inversion.{with_state}
use rust_generic_user_backen.Api.Auth.Tokens.{TokenPair, issue_tokens}
use rust_generic_user_backen.Api.Auth.Session.{LoginReq, login, refresh, logout}
use rust_generic_user_backen.Api.Auth.Session.Rotation.{Rotated, refresh-Rotated}
use rust_generic_user_backen.Api.Validate.{check_account}
use rust_generic_user_backen.Api.Auth.Register.{RegisterReq, app_port, register_user}
use rust_generic_user_backen.Api.Auth.Register.Enrolled.{Enrolled, register_user-Enrolled}
use rust_generic_user_backen.Tests.Toy.{codes, digits, toy, alone, state, tables, world}

abbrev pair : TokenPair
pair = record { access_token = "s.1"; refresh_token = "6"; access_expires_in = pos 900 }

refresh_run : (refresh toy state "A" world).0 ≡ ok pair
unfolding refresh hash_refresh_token db map_err lookup_refresh_token query settle
    select_refresh_token ◌>>=◌ ok_or now_utc draw raise_if revoke_refresh_token update_revoked
    find_by_id select_by_id select_user user_of parse issue_tokens issue new_v4 claims_at lift
    generate_refresh_token fill_bytes store_refresh_token insert_refresh_token pure mul_i64
    unix_timestamp ◌+ℤ◌ ◌*ℤ◌ codes digits show
refresh_run = refl

refresh-Rotated_example : Rotated toy state "A" world pair (refresh toy state "A" world).1
refresh-Rotated_example =
    refresh-Rotated toy state "A" world (with_state (refresh toy state "A") world refresh_run)

refresh-single_use_example : ¬ (
    (refresh toy state "A" (
      serve_all toy state
        (Request.login (record { email = "a@x"; password = "password" }) ∷ [])
        (refresh toy state "A" world).1)).0
    ≡ ok pair)
refresh-single_use_example =
    refresh-single_use toy state "A" world _ pair pair
      (Request.login (record { email = "a@x"; password = "password" }) ∷ []) (alone _) (alone _)
      (with_state (refresh toy state "A") world refresh_run)

logout_run : (logout toy state "A" world).0 ≡ ok 204
unfolding logout hash_refresh_token db map_err query settle ◌>>=◌ revoke_refresh_token
    update_revoked pure codes digits show
logout_run = refl

token-IsStored : IsStored (hash_refresh_token toy "A") tables
unfolding hash_refresh_token codes digits show
token-IsStored = refl

logout-ends_session_example :
    ¬ ((refresh toy state "A" (serve_all toy state [] (logout toy state "A" world).1)).0 ≡ ok pair)
logout-ends_session_example =
    logout-ends_session toy state "A" world _ 204 pair [] (alone _) (alone _) token-IsStored
      (with_state (logout toy state "A") world logout_run)

abbrev credentials : LoginReq
credentials = record { email = "a@x"; password = "password" }

abbrev login_pair : TokenPair
login_pair = record { access_token = "s.1"; refresh_token = "3"; access_expires_in = pos 900 }

login_run : (login toy state credentials world).0 ≡ ok login_pair
unfolding login hash_refresh_token db map_err find_by_email select_by_email secret_of same_email
    query settle ◌>>=◌ ok_or now_utc draw raise_if verify_password select_user user_of parse
    issue_tokens issue new_v4 claims_at lift generate_refresh_token fill_bytes store_refresh_token
    insert_refresh_token pure mul_i64 unix_timestamp ◌+ℤ◌ ◌*ℤ◌ codes digits show
login_run = refl

login-LoggedIn_example :
    LoggedIn toy state credentials world login_pair (login toy state credentials world).1
login-LoggedIn_example =
    login-LoggedIn toy state credentials world
      (with_state (login toy state credentials) world login_run)

abbrev mistyped : LoginReq
mistyped = record { email = "a@x"; password = "passwort" }

mistyped-Mismatch : Mismatch toy state mistyped (account toy "a@x" tables)
unfolding Mismatch select_user same_email
mistyped-Mismatch = ("$password", refl, refl, refl)

login-uniform_example :
    login toy state mistyped world ≡ (err (auth "Invalid email or password"), seen toy world)
login-uniform_example = login-uniform toy state mistyped world refl mistyped-Mismatch

abbrev newcomer : RegisterReq
newcomer = record { email = "c@x"; password = "password"; display_name = none }

abbrev registered : TokenPair
registered = record { access_token = "s.102"; refresh_token = "5"; access_expires_in = pos 900 }

register_run :
    (register_user toy (app_port toy state) newcomer (pos 15) (pos 30) world).0 ≡ ok registered
unfolding register_user app_port check_account hash_password generate_salt create_user
    select_role_id as_str insert_user same_email hash_refresh_token db map_err query settle ◌>>=◌
    now_utc draw issue new_v4 claims_at lift generate_refresh_token fill_bytes store_refresh_token
    insert_refresh_token pure mul_i64 unix_timestamp ◌+ℤ◌ ◌*ℤ◌ codes digits show
register_run = refl

register_user-Enrolled_example :
    Enrolled toy state newcomer
      (pos 15)
      (pos 30)
      world
      registered
      (register_user toy (app_port toy state) newcomer (pos 15) (pos 30) world).1
register_user-Enrolled_example =
    register_user-Enrolled toy state newcomer (pos 15) (pos 30) world _ registered (
      with_state (register_user toy (app_port toy state) newcomer (pos 15) (pos 30)) world
        register_run)
