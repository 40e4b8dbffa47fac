-- ===== src/Api/Auth/Reset/Silent.antt =====
-- The answer of `forgot_password`.
use rust_generic_user_backen.Base.{String, ◌≡◌, refl, ap, ◌∙◌, Option, none, some}
use rust_generic_user_backen.Base.Int.{pos}
use rust_generic_user_backen.Base.Result.{Result, ok, err}
use rust_generic_user_backen.Core.Error.{AppError}
use rust_generic_user_backen.Env.{Env}
use rust_generic_user_backen.App.{World, attempt, pure, spawn}
use rust_generic_user_backen.App.Forward.{bind-ok}
use rust_generic_user_backen.Api.State.{AppState}
use rust_generic_user_backen.Api.Auth.Reset.{
  app_port, forgot_password, request_password_reset, mail_reset,
}

module _ (env : Env) (state : AppState) (email : String) where
  mail_reset-ok :
      (r : Result AppError (Option String)) (w : World)
      → (v : World) × (mail_reset env state email r w ≡ (ok tt, v))
  unfolding mail_reset spawn pure
  mail_reset-ok (ok (some token)) w = (_, refl)
  mail_reset-ok (ok none) w = (_, refl)
  mail_reset-ok (err e) w = (_, refl)

  -- A request for a password reset is answered with the status 204 whatever happens: whether there
  -- is an account for the e-mail address or not, and whichever statement fails.
  pub forgot_password-204 : (w : World) → (forgot_password env state email w).0 ≡ ok 204
  unfolding forgot_password attempt pure
  forgot_password-204 w =
      let m = request_password_reset env (app_port env) email (pos 1) in
      let (v, mailed) = mail_reset-ok (m w).0 (m w).1 in
      ap (λ p. p.0)
        (bind-ok (attempt m) _ w {a = (m w).0} {v = (m w).1} refl
          ∙ bind-ok (mail_reset env state email (m w).0) _ (m w).1 mailed)
