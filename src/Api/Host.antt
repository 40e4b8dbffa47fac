-- ===== src/Api/Host.antt =====
-- What the process finds around it and does not implement: environment variables, the `config`
-- crate, the pool's connection, the migrations, the listener, clap, and lettre. The fields carry no
-- laws.
use rust_generic_user_backen.Base.{ℕ, String, Option, List}
use rust_generic_user_backen.Base.Result.{Result}
use rust_generic_user_backen.Core.User.{Uuid}
use rust_generic_user_backen.Core.Error.{AppError}
use rust_generic_user_backen.App.{App}
use rust_generic_user_backen.Db.Schema.{SqlxError}
use rust_generic_user_backen.Db.Connection.{DbConfig, Migrator}
use rust_generic_user_backen.Api.Config.{Source, RawSettings}
use rust_generic_user_backen.Api.Router.{Request, Reply}

pub record Host : Type 0 where
  -- `std::env::var`, where it is set and is text
  pub env_var : String → Option String
  -- the `config` crate: the check of a key that is overridden, and the merged sources, the later
  -- before the earlier and the overrides before all, as serde reads them
  pub set_override : (key value : String) → Result String Unit
  pub build_config : List Source → (overrides : List (String × String)) → Result String RawSettings
  -- sqlx
  pub connect : ℕ → DbConfig → Result SqlxError Unit
  pub migrate : Migrator
  -- reqwest
  pub http_client : (user_agent : String) → Result String Unit
  -- tower-http: an origin that parses as a header value, and `AllowOrigin::list`, which may panic
  pub parse_origin : String → Option String
  pub allow_origin_list : List String → Result String Unit
  -- tokio: the listener
  pub bind : ℕ → String → Result String Unit
  -- axum: what `serve` makes of the world up to the signal to shut down, from what the routes make of
  -- a request. It may run as many of them as it likes, one beside the other.
  pub serve : (Request → App AppError Reply) → App String Unit
  -- a uuid with hyphens
  pub uuid_display : Uuid → String
