-- ===== src/Tests/Recovery.antt =====
-- Password resets and verifications with the tokens of the administrator.
use rust_generic_user_backen.Base.{find, ◌≡◌, refl, [], ◌∷◌}
use rust_generic_user_backen.Base.Text.{show}
use rust_generic_user_backen.Base.Result.{ok}
use rust_generic_user_backen.Auth.Password.{hash_password}
use rust_generic_user_backen.Db.OneTimeTokens.{
  is_live, use_token, use_reset, use_verification, consume_password_reset_token,
  consume_email_verification_token,
}
use rust_generic_user_backen.Db.OneTimeTokens.Used.{ResetIsUnique, VerificationIsUnique}
use rust_generic_user_backen.Db.RefreshTokens.{update_all_revoked, revoke_all_refresh_tokens}
use rust_generic_user_backen.Db.Users.{
  update_password, update_password_hash, update_email_verified, mark_email_verified,
}
use rust_generic_user_backen.App.{
  pure, lift, ok_or, map_err, db, query, settle, draw, generate_salt, ◌>>=◌,
}
use rust_generic_user_backen.App.Inversion.{with_state}
use rust_generic_user_backen.Api.Validate.{check_reset}
use rust_generic_user_backen.Api.Auth.Tokens.{sha256_hex}
use rust_generic_user_backen.Api.Auth.Reset.{
  ResetPasswordReq, app_port, perform_password_reset, reset_password, forgot_password,
}
use rust_generic_user_backen.Api.Auth.Reset.Recovery.{Recovered, reset_password-Recovered}
use rust_generic_user_backen.Api.Auth.Reset.Silent.{forgot_password-204}
use rust_generic_user_backen.Api.Auth.VerifyEmail.{verify_email}
use rust_generic_user_backen.Api.Auth.VerifyEmail.Confirmed.{Confirmed, verify_email-Confirmed}
use rust_generic_user_backen.Base.Int.{pos}
use rust_generic_user_backen.App.Forward.{seen}
use rust_generic_user_backen.Api.Router.{Request, serve_all}
use rust_generic_user_backen.Api.Router.OneTime.{reset_password-single_use, verify_email-single_use}
use rust_generic_user_backen.Tests.Toy.{
  codes, digits, toy, alone, state, tables, world, one_time, user_row,
}
use rust_generic_user_backen.Tests.Accounts.{toy_argon2}
use rust_generic_user_backen.Api.Auth.Reset.Succeeds.{reset_password-succeeds}
use rust_generic_user_backen.Api.Auth.Reset.Login.{reset_password-login}
use rust_generic_user_backen.Api.Auth.Tokens.{TokenPair}
use rust_generic_user_backen.Api.Auth.Tokens.Issuable.{Issuable}
use rust_generic_user_backen.Api.Auth.Session.{login}
use rust_generic_user_backen.Api.Auth.Session.Credentials.{account}
use rust_generic_user_backen.Auth.Tokens.{hash_refresh_token}
use rust_generic_user_backen.Auth.Jwt.{claims_at}
use rust_generic_user_backen.Db.Schema.{UserRow}
use rust_generic_user_backen.Db.Users.{select_user, same_email, user_of}
use rust_generic_user_backen.App.{World}
use rust_generic_user_backen.Base.{some}

abbrev body : ResetPasswordReq
body = record { token = "A"; new_password = "12345678" }

reset_run : (reset_password toy body world).0 ≡ ok 204
unfolding reset_password perform_password_reset app_port check_reset sha256_hex lift ok_or pure
    ◌>>=◌ db map_err query settle draw generate_salt hash_password consume_password_reset_token
    use_reset use_token update_password_hash update_password revoke_all_refresh_tokens
    update_all_revoked codes digits show
reset_run = refl

reset_password-Recovered_example : Recovered toy body world (reset_password toy body world).1
reset_password-Recovered_example =
    reset_password-Recovered toy body world (with_state (reset_password toy body) world reset_run)

reset_unique : ResetIsUnique (sha256_hex toy "A") tables
unfolding sha256_hex codes digits show
reset_unique = refl

reset_password-single_use_example : ¬ (
    (reset_password toy
      (record { token = "A"; new_password = "87654321" })
      (serve_all toy state (Request.health ∷ []) (reset_password toy body world).1)).0
    ≡ ok 204)
reset_password-single_use_example =
    reset_password-single_use toy state body world _ 204 204 "87654321" (Request.health ∷ [])
      (alone _) (alone _) reset_unique (with_state (reset_password toy body) world reset_run)

stored_token :
    find (is_live (sha256_hex toy "A") (pos 0)) tables.password_reset_tokens ≡ some (one_time "65")
unfolding sha256_hex codes digits show
stored_token = refl

reset_password-succeeds_example :
    (w' : World) × (reset_password toy body world ≡ (ok 204, w')) × Recovered toy body world w'
reset_password-succeeds_example =
    reset_password-succeeds toy body world (one_time "65") "$12345678" refl refl refl refl
      stored_token refl

abbrev reset_world : World
reset_world = (reset_password toy body world).1

abbrev recovered : UserRow
recovered = record (user_row 1 "a@x" 1) { password_hash = some "$12345678"; updated_at = pos 2 }

recovered_account : account toy "a@x" reset_world.db ≡ some (recovered, "admin")
unfolding reset_password perform_password_reset app_port check_reset sha256_hex lift ok_or pure
    ◌>>=◌ db map_err query settle draw generate_salt hash_password consume_password_reset_token
    use_reset use_token update_password_hash update_password revoke_all_refresh_tokens
    update_all_revoked codes digits show select_user same_email
recovered_account = refl

recovered-Issuable : Issuable toy state 1 (user_of (recovered, "admin")).role (seen toy reset_world)
unfolding reset_password perform_password_reset app_port check_reset sha256_hex lift ok_or pure
    ◌>>=◌ db map_err query settle draw generate_salt hash_password consume_password_reset_token
    use_reset use_token update_password_hash update_password revoke_all_refresh_tokens
    update_all_revoked codes digits show claims_at hash_refresh_token
recovered-Issuable = record { access = "s.1"; encoded = refl; answered = refl; unused = refl }

reset_password-login_example :
    (pair : TokenPair) × (w' : World) × (login toy state
        (record { email = "a@x"; password = "12345678" })
        reset_world
      ≡ (ok pair, w'))
reset_password-login_example =
    reset_password-login toy state body world reset_world 204 (one_time "65") recovered "admin"
      "a@x" toy_argon2 (λ phc. alone _) (alone _) stored_token
      (with_state (reset_password toy body) world reset_run) refl recovered_account refl refl
      recovered-Issuable

verify_run : (verify_email toy "A" world).0 ≡ ok 200
unfolding verify_email sha256_hex ok_or pure ◌>>=◌ db map_err query settle
    consume_email_verification_token use_verification use_token mark_email_verified
    update_email_verified codes digits show
verify_run = refl

verify_email-Confirmed_example : Confirmed toy "A" world (verify_email toy "A" world).1
verify_email-Confirmed_example =
    verify_email-Confirmed toy "A" world (with_state (verify_email toy "A") world verify_run)

verification_unique : VerificationIsUnique (sha256_hex toy "A") tables
unfolding sha256_hex codes digits show
verification_unique = refl

verify_email-single_use_example : ¬ (
    (verify_email toy "A"
      (serve_all toy state (Request.health ∷ []) (verify_email toy "A" world).1)).0
    ≡ ok 200)
verify_email-single_use_example =
    verify_email-single_use toy state "A" world _ 200 200 (Request.health ∷ []) (alone _) (alone _)
      verification_unique (with_state (verify_email toy "A") world verify_run)

forgot_password-204_example : (forgot_password toy state "nobody@x" world).0 ≡ ok 204
forgot_password-204_example = forgot_password-204 toy state "nobody@x" world
