-- ===== src/Tests/Accounts.antt =====
-- Registration, login, sign-in with Google and password recovery of accounts.
use rust_generic_user_backen.Base.{◌≡◌, ◌⊎◌, refl, String, none, [], ◌∷◌, ◌++◌, eq_iff, true}
use rust_generic_user_backen.Base.Int.{pos, mul_i64, ◌*ℤ◌, ◌+ℤ◌}
use rust_generic_user_backen.Base.Result.{ok}
use rust_generic_user_backen.Base.Text.{show, ◌<>◌}
use rust_generic_user_backen.Core.Role.{Role, parse, as_str}
use rust_generic_user_backen.Core.User.{Uuid}
use rust_generic_user_backen.Auth.Password.{hash_password}
use rust_generic_user_backen.Auth.Tokens.{generate_refresh_token, hash_refresh_token}
use rust_generic_user_backen.Auth.Jwt.{issue, claims_at, unix_timestamp}
use rust_generic_user_backen.Db.Users.{
  create_user, select_role_id, insert_user, select_by_email, find_by_email, same_email, select_user,
  user_of, secret_of,
}
use rust_generic_user_backen.Db.RefreshTokens.{
  update_revoked, insert_refresh_token, store_refresh_token,
}
use rust_generic_user_backen.Db.OneTimeTokens.{
  insert_token, insert_reset, store_password_reset_token,
}
use rust_generic_user_backen.App.{
  World, generate_salt, pure, lift, map_err, db, query, settle, draw, now_utc, new_v4, fill_bytes,
  attempt, spawn, ◌>>=◌,
}
use rust_generic_user_backen.App.Forward.{seen}
use rust_generic_user_backen.App.Inversion.{with_state, ok-injective}
use rust_generic_user_backen.Api.Validate.{check_account}
use rust_generic_user_backen.Api.Auth.Tokens.{TokenPair, generate_verification_token, sha256_hex}
use rust_generic_user_backen.Api.Auth.Tokens.Issuable.{Issuable}
use rust_generic_user_backen.Api.Auth.Session.{LoginReq, login, refresh}
use rust_generic_user_backen.Api.Auth.Session.Renewed.{refresh-returns}
use rust_generic_user_backen.Api.Auth.Session.Rotation.{revoked_world}
use rust_generic_user_backen.Api.Auth.Session.Returns.{login-returns}
use rust_generic_user_backen.Api.Auth.Register.{RegisterReq, app_port, register_user}
use rust_generic_user_backen.Api.Auth.Register.Login.{register_user-login}
use rust_generic_user_backen.Api.Auth.Google.{OauthCallbackQuery}
use rust_generic_user_backen.Api.Auth.Google.SignedIn.{SignedIn}
use rust_generic_user_backen.Api.Auth.Reset
use rust_generic_user_backen.Api.Auth.Reset.{
  forgot_password, request_for, request_password_reset, mail_reset,
}
use rust_generic_user_backen.Api.Auth.Reset.Mailed.{Requested, link, forgot_password-mails}
use rust_generic_user_backen.Tests.Toy.{
  codes, digits, toy, alone, state, session_row, user_row, world,
}

abbrev body : LoginReq
body = record { email = "a@x"; password = "password" }

login-Issuable : Issuable toy state 1 (user_of (user_row 1 "a@x" 1, "admin")).role (seen toy world)
unfolding claims_at hash_refresh_token codes digits show
login-Issuable = record { access = "s.1"; encoded = refl; answered = refl; unused = refl }

login-returns_example :
    (pair : TokenPair) × (w' : World) × (login toy state body world ≡ (ok pair, w'))
unfolding select_user same_email
login-returns_example =
    login-returns toy state body world (user_row 1 "a@x" 1) "admin" "$password" (alone _) refl refl
      refl refl refl refl login-Issuable

abbrev newcomer : RegisterReq
newcomer = record { email = "c@x"; password = "password"; display_name = none }

abbrev registered : TokenPair
registered = record { access_token = "s.102"; refresh_token = "5"; access_expires_in = pos 900 }

abbrev after : World
after = (register_user toy (app_port toy state) newcomer (pos 15) (pos 30) world).1

register_run :
    (register_user toy (app_port toy state) newcomer (pos 15) (pos 30) world).0 ≡ ok registered
unfolding register_user app_port check_account hash_password generate_salt create_user
    select_role_id as_str insert_user same_email hash_refresh_token db map_err query settle ◌>>=◌
    now_utc draw issue new_v4 claims_at lift generate_refresh_token fill_bytes store_refresh_token
    insert_refresh_token pure mul_i64 unix_timestamp ◌+ℤ◌ ◌*ℤ◌ codes digits show
register_run = refl

after-Issuable : (id : Uuid) (role : Role) → Issuable toy state id role (seen toy after)
unfolding register_user app_port check_account hash_password generate_salt create_user
    select_role_id as_str insert_user same_email hash_refresh_token db map_err query settle ◌>>=◌
    now_utc draw issue new_v4 claims_at lift generate_refresh_token fill_bytes store_refresh_token
    insert_refresh_token pure mul_i64 unix_timestamp ◌+ℤ◌ ◌*ℤ◌ codes digits show
after-Issuable id role = record {
  access = "s" <> "." <> show id;
  encoded = refl;
  answered = refl;
  unused = refl;
}

pub toy_argon2 :
    (plain salt phc : String)
    → toy.argon2_hash plain salt ≡ ok phc
    → (toy.phc_error phc ≡ none) × (toy.argon2_matches plain phc ≡ true)
toy_argon2 plain salt phc h =
    (refl, rw (← ok-injective h) ((eq_iff ("$" <> plain) ("$" <> plain)).1 refl))

register_user-login_example :
    (pair : TokenPair) × (w' : World) × (login toy state
        (record { email = "c@x"; password = "password" })
        after
      ≡ (ok pair, w'))
register_user-login_example =
    register_user-login toy state newcomer (pos 15) (pos 30) world after registered toy_argon2
      (λ row name. alone _) (λ id. alone _) refl after-Issuable
      (with_state (register_user toy (app_port toy state) newcomer (pos 15) (pos 30)) world
        register_run)

abbrev callback : OauthCallbackQuery
callback = record { code = "c"; state = none }

abbrev google_pair : TokenPair
google_pair = record { access_token = "s.104"; refresh_token = "8"; access_expires_in = pos 900 }

forgot_run : (forgot_password toy state "a@x" world).0 ≡ ok 204
unfolding forgot_password request_password_reset request_for mail_reset Reset.app_port find_by_email
    select_by_email select_user same_email secret_of user_of parse generate_verification_token
    sha256_hex store_password_reset_token insert_reset insert_token attempt spawn db map_err query
    settle ◌>>=◌ now_utc draw new_v4 lift pure ◌+ℤ◌ ◌*ℤ◌ codes digits show
forgot_run = refl

abbrev mailed : World
mailed = (forgot_password toy state "a@x" world).1

forgot_password-mails_example :
    (mailed.spawned ≡ world.spawned)
    ⊎ ((token : String) × Requested toy state "a@x" world token mailed.db
        × (mailed.spawned ≡ world.spawned ++ link toy state "a@x" token ∷ []))
forgot_password-mails_example =
    forgot_password-mails toy state "a@x" world mailed 204
      (with_state (forgot_password toy state "a@x") world forgot_run)

refresh-Issuable :
    Issuable toy state 1
      (user_of (user_row 1 "a@x" 1, "admin")).role
      (seen toy (revoked_world toy (hash_refresh_token toy "A") world))
unfolding claims_at hash_refresh_token update_revoked codes digits show
refresh-Issuable = record { access = "s.1"; encoded = refl; answered = refl; unused = refl }

refresh-returns_example :
    (pair : TokenPair) × (w' : World) × (refresh toy state "A" world ≡ (ok pair, w'))
unfolding hash_refresh_token select_user codes digits show
refresh-returns_example =
    refresh-returns toy state "A" world session_row (user_row 1 "a@x" 1) "admin" (alone _) refl refl
      refl refl refl refl refl refresh-Issuable
