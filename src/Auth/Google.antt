-- ===== src/Auth/Google.antt =====
-- crates/auth/src/oauth.rs.
use rust_generic_user_backen.Base.{String, some, [], ◌∷◌}
use rust_generic_user_backen.Base.Text.{◌<>◌}
use rust_generic_user_backen.Base.Result.{map_err}
use rust_generic_user_backen.Core.Error.{AppError, auth}
use rust_generic_user_backen.Auth.Types.{GoogleConfig, GoogleProfile, BasicClient}
use rust_generic_user_backen.Env.{Env}
use rust_generic_user_backen.App.{App, lift, pure, draw, ◌>>=◌}

abbrev google_auth_url : String
google_auth_url = "https://accounts.google.com/o/oauth2/v2/auth"

abbrev google_token_url : String
google_token_url = "https://oauth2.googleapis.com/token"

abbrev google_userinfo_url : String
google_userinfo_url = "https://openidconnect.googleapis.com/v1/userinfo"

module _ (env : Env) where
  unfoldable pub google_client : GoogleConfig → App AppError BasicClient
  google_client cfg = do
    auth_url ← lift (map_err (λ e. auth ("auth url: " <> e)) (env.parse_url google_auth_url))
    token_url ← lift (map_err (λ e. auth ("token url: " <> e)) (env.parse_url google_token_url))
    redirect ← lift (map_err (λ e. auth ("redirect url: " <> e)) (env.parse_url cfg.redirect_url))
    pure (record {
      client_id = cfg.client_id;
      client_secret = some cfg.client_secret;
      auth_url = auth_url;
      token_url = some token_url;
      redirect_url = redirect;
    })

  -- The authorize URL and the CSRF state.
  unfoldable pub google_authorize_url : BasicClient → App AppError (String × String)
  google_authorize_url client =
      draw env (λ n. env.authorize_url n client ("openid" ∷ "email" ∷ "profile" ∷ []))

  unfoldable pub google_exchange_code : BasicClient → String → App AppError GoogleProfile
  google_exchange_code client code = do
    exchanged ← draw env (λ n. env.exchange_code n client code)
    token ← lift (map_err (λ e. auth ("token exchange: " <> e)) exchanged)
    sent ← draw env (λ n. env.http_get n google_userinfo_url token)
    answer ← lift (map_err (λ e. auth ("userinfo: " <> e)) sent)
    fine ← lift (map_err (λ e. auth ("userinfo status: " <> e)) (env.error_for_status answer))
    lift (map_err (λ e. auth ("userinfo decode: " <> e)) (env.profile_of_json fine.body))
