-- ===== src/Api/Auth/Reset/Refused.antt =====
-- Password resets and e-mail verifications with a token that is not live.
use rust_generic_user_backen.Base.{
  String, ◌≡◌, refl, ap, ◌∙◌, Bool, true, none, List, [], ◌∷◌, arith, find, update,
}
use rust_generic_user_backen.Base.Result
use rust_generic_user_backen.Base.Result.{Result, ok, err}
use rust_generic_user_backen.Core.Error.{bad_request, from_validation_errors}
use rust_generic_user_backen.Core.User.{OffsetDateTime}
use rust_generic_user_backen.Db.Schema.{OneTimeTokenRow}
use rust_generic_user_backen.Db.OneTimeTokens.{
  is_live, use_token, use_reset, use_verification, consume_password_reset_token,
  consume_email_verification_token,
}
use rust_generic_user_backen.Env.{Env, clean}
use rust_generic_user_backen.App.{World, lift, ok_or, db, query}
use rust_generic_user_backen.App.Forward.{seen, bind-ok, bind-err, query-clean}
use rust_generic_user_backen.Api.Validate.{check_reset}
use rust_generic_user_backen.Api.Auth.Tokens.{sha256_hex}
use rust_generic_user_backen.Api.Auth.Reset.{
  ResetPasswordReq, app_port, perform_password_reset, reset_password,
}
use rust_generic_user_backen.Api.Auth.VerifyEmail.{verify_email}

update-none :
    {A : Type 0} (p : A → Bool) (f : A → A) (rows : List A)
    → find p rows ≡ none
    → update p f rows ≡ rows
update-none p f [] h = refl
update-none p f (x ∷ rows) h = ground (arith, update-none p f rows)

use_token-none :
    (hash : String) (now : OffsetDateTime) (rows : List OneTimeTokenRow)
    → find (is_live hash now) rows ≡ none
    → use_token hash now rows ≡ (none, rows)
unfolding use_token
use_token-none hash now rows h = rw (h, update-none (is_live hash now) _ rows h) refl

module _ (env : Env) (w : World) (answered : env.fault w.effects ≡ clean) where
  reset_unused :
      (hash : String)
      → find (is_live hash (env.db_now w.effects)) (env.others w.effects w.db).password_reset_tokens
        ≡ none
      → db env (query env (use_reset hash)) w ≡ (ok none, seen env w)
  unfolding use_reset
  reset_unused hash h = query-clean env (use_reset hash) w answered (
      ap (λ p. (ok p.0, record (env.others w.effects w.db) { password_reset_tokens = p.1 }))
        (use_token-none hash (env.db_now w.effects)
          (env.others w.effects w.db).password_reset_tokens h))

  verification_unused :
      (hash : String)
      → find
          (is_live hash (env.db_now w.effects))
          (env.others w.effects w.db).email_verification_tokens
        ≡ none
      → db env (query env (use_verification hash)) w ≡ (ok none, seen env w)
  unfolding use_verification
  verification_unused hash h = query-clean env (use_verification hash) w answered (
      ap (λ p. (ok p.0, record (env.others w.effects w.db) { email_verification_tokens = p.1 }))
        (use_token-none hash (env.db_now w.effects)
          (env.others w.effects w.db).email_verification_tokens h))

pub long_enough :
    (env : Env) (password : String)
    → env.valid_min_length 8 password ≡ true
    → Result.map_err from_validation_errors (check_reset env password) ≡ ok tt
unfolding check_reset
long_enough env password h = rw h refl

module _ (env : Env) where
  -- A reset with an acceptable password and a token that no row has unused and unexpired fails as a
  -- bad request and changes no table, if the statement on the tokens is answered.
  pub reset_password-refuses :
      (body : ResetPasswordReq) (w : World)
      → env.fault w.effects ≡ clean
      → env.valid_min_length 8 body.new_password ≡ true
      → find
          (is_live (sha256_hex env body.token) (env.db_now w.effects))
          (env.others w.effects w.db).password_reset_tokens
        ≡ none
      → reset_password env body w ≡ (err (bad_request "invalid or expired token"), seen env w)
  unfolding reset_password perform_password_reset app_port consume_password_reset_token lift ok_or
  reset_password-refuses body w answered long h =
      bind-err (perform_password_reset env (app_port env) body) _ w (
        bind-ok (lift (Result.map_err from_validation_errors (check_reset env body.new_password))) _
          w (ap (λ r. (r, w)) (long_enough env body.new_password long))
        ∙ bind-ok (db env (query env (use_reset (sha256_hex env body.token)))) _ w
            (reset_unused env w answered (sha256_hex env body.token) h)
        ∙ bind-err (ok_or none (bad_request "invalid or expired token")) _ (seen env w) refl)

  -- A verification with a token that no row has unused and unexpired fails as a bad request and
  -- changes no table, if the statement on the tokens is answered.
  pub verify_email-refuses :
      (token : String) (w : World)
      → env.fault w.effects ≡ clean
      → find
          (is_live (sha256_hex env token) (env.db_now w.effects))
          (env.others w.effects w.db).email_verification_tokens
        ≡ none
      → verify_email env token w ≡ (err (bad_request "invalid or expired token"), seen env w)
  unfolding verify_email consume_email_verification_token ok_or
  verify_email-refuses token w answered h =
      bind-ok (db env (query env (use_verification (sha256_hex env token)))) _ w
        (verification_unused env w answered (sha256_hex env token) h)
      ∙ bind-err (ok_or none (bad_request "invalid or expired token")) _ (seen env w) refl
