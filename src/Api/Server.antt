-- ===== src/Api/Server.antt =====
-- `AppState::build` of crates/api/src/state.rs, and `run` and `build_cors_layer` of
-- crates/api/src/lib.rs. An error is a chain of messages, the outermost first, and a panic is an
-- error with its message: nothing of the process runs after either. How axum serves the routes, and
-- how many requests at a time, is the host's.
pub mod Keeps
pub mod Served
pub mod Cors
use rust_generic_user_backen.Base.{
  ℕ, String, Bool, true, false, Option, none, some, List, [], ◌∷◌, str_eq, if◌then◌else◌,
}
use rust_generic_user_backen.Base.Text.{◌<>◌}
use rust_generic_user_backen.Base.Result
use rust_generic_user_backen.Base.Result.{Result, ok, err}
use rust_generic_user_backen.Auth.Types.{JwtConfig}
use rust_generic_user_backen.Db.Schema.{DbError}
use rust_generic_user_backen.Db.Connection.{DbConfig, connect, run_migrations}
use rust_generic_user_backen.Env.{Env}
use rust_generic_user_backen.App.{App, pure, lift, map_err, draw, db_to_string, ◌>>=◌, ◌>>◌}
use rust_generic_user_backen.Api.Config.{Settings}
use rust_generic_user_backen.Api.Host.{Host}
use rust_generic_user_backen.Api.State.{AppState}
use rust_generic_user_backen.Api.Router.{serve}

-- What is asked of tower-http's `CorsLayer`. Any header may be sent in both cases.
pub data CorsLayer : Type 0 where
  permissive : CorsLayer
  restricted : (origins methods : List String) (credentials : Bool) → CorsLayer

unfoldable pub filter_map : (String → Option String) → List String → List String
filter_map f [] = []
filter_map f (s ∷ rest) =
    let more = filter_map f rest in elim (f s) [ none ↦ more | some t ↦ t ∷ more ]

abbrev pub allowed_methods : List String
allowed_methods = "GET" ∷ "POST" ∷ "PUT" ∷ "PATCH" ∷ "DELETE" ∷ "OPTIONS" ∷ []

-- `AllowOrigin::list` may panic.
unfoldable pub build_cors_layer : Host → Settings → Result String CorsLayer
unfolding filter_map
build_cors_layer host settings =
    let origins = filter_map host.parse_origin settings.cors.allowed_origins in
    if str_eq settings.app_env "development"
    then ok permissive
    else Result.◌>>=◌ (host.allow_origin_list origins)
        (λ _. ok (restricted origins allowed_methods false))

-- The router that is served, with its layer.
pub record Application : Type 0 where
  pub state : AppState
  pub cors : CorsLayer

-- The codec that `build` makes.
unfoldable pub jwt_config : Settings → JwtConfig
jwt_config settings = record {
  secret = settings.auth.jwt_secret;
  access_ttl_min = settings.auth.jwt_access_ttl_min;
  refresh_ttl_days = settings.auth.jwt_refresh_ttl_days;
  issuer = "generic-auth";
}

module _ (env : Env) (host : Host) where
  -- `?` on a database error where `anyhow` is returned
  abbrev pub chain_db : DbError → List String
  chain_db e = db_to_string env e ∷ []

  unfoldable pub migrate_on_start : Bool → App DbError Unit
  migrate_on_start true = run_migrations env host.migrate
  migrate_on_start false = pure tt

  unfoldable pub build : Settings → App (List String) AppState
  build settings = do
    map_err chain_db (
        connect env host.connect (record {
          url = settings.db.url;
          max_connections = settings.db.max_connections;
          min_connections = settings.db.min_connections;
          acquire_timeout_secs = settings.db.acquire_timeout_secs;
        }))
    map_err chain_db (migrate_on_start settings.db.run_migrations_on_start)
    lift (Result.map_err (λ e. e ∷ []) (host.http_client "generic-auth/0.1"))
    pure (record { settings = settings; jwt = jwt_config settings })

  -- `axum::serve` until the signal.
  unfoldable pub axum_serve : Application → App (List String) Unit
  axum_serve app = map_err (λ e. "axum::serve" ∷ e ∷ []) (host.serve (serve env app.state))

  unfoldable pub run : Settings → App (List String) Unit
  run settings = do
    state ← map_err (λ e. "building app state" ∷ e) (build settings)
    cors ← lift (Result.map_err (λ e. e ∷ []) (build_cors_layer host settings))
    bound ← draw env (λ n. host.bind n settings.http.bind)
    lift (Result.map_err (λ e. ("bind " <> settings.http.bind) ∷ e ∷ []) bound)
    axum_serve (record { state = state; cors = cors })
