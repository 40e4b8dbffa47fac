-- ===== src/Api/State.antt =====
-- `AppState` of crates/api/src/state.rs, and the configuration that the Google handlers make of it.
-- The pool is the world's database, and the HTTP client is the environment's.
use rust_generic_user_backen.Auth.Types.{JwtConfig, GoogleConfig}
use rust_generic_user_backen.Api.Config.{Settings}

pub record AppState : Type 0 where
  pub settings : Settings
  pub jwt : JwtConfig

-- The `cfg` of the Google handlers.
unfoldable pub google_config : AppState → GoogleConfig
google_config state = record {
  client_id = state.settings.auth.google.client_id;
  client_secret = state.settings.auth.google.client_secret;
  redirect_url = state.settings.auth.google.redirect_url;
}
