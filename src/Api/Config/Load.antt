-- ===== src/Api/Config/Load.antt =====
-- `Settings::load`, and the defaults of crates/api/src/config.rs.
use rust_generic_user_backen.Base.{ℕ, String, false, none, some, List, [], ◌∷◌, unwrap_or}
use rust_generic_user_backen.Base.Text.{◌<>◌}
use rust_generic_user_backen.Base.Result.{Result, ok, err}
use rust_generic_user_backen.Api.Config.{
  Settings, RawSettings, RawDb, DbSettings, Source, file, environment,
}
use rust_generic_user_backen.Api.Host.{Host}

abbrev pub default_min : ℕ
default_min = 2

abbrev pub default_acquire : ℕ
default_acquire = 10

-- `#[serde(default)]` of the fields of `Db`.
unfoldable pub db_settings : RawDb → DbSettings
db_settings raw = record {
  url = raw.url;
  max_connections = raw.max_connections;
  min_connections = unwrap_or raw.min_connections default_min;
  acquire_timeout_secs = unwrap_or raw.acquire_timeout_secs default_acquire;
  run_migrations_on_start = unwrap_or raw.run_migrations_on_start false;
}

-- The settings with `app_env`, which serde skips.
unfoldable pub settings_of : String → RawSettings → Settings
unfolding db_settings
settings_of app_env raw = record {
  app_env = app_env;
  http = raw.http;
  db = db_settings raw.db;
  auth = raw.auth;
  cors = raw.cors;
  email = raw.email;
}

abbrev pub sources : String → List Source
sources app_env =
    file "config/default" false
    ∷ file ("config/" <> app_env) false
    ∷ environment "APP" "__" "," "cors.allowed_origins"
    ∷ []

module _ (host : Host) where
  abbrev pub app_env_of : String
  app_env_of = unwrap_or (host.env_var "APP_ENV") "development"

  unfoldable pub deserialized : String → List (String × String) → Result String Settings
  unfolding settings_of
  deserialized app_env overrides = elim (host.build_config (sources app_env) overrides) [
    | err e ↦ err e
    | ok raw ↦ ok (settings_of app_env raw)
  ]

  unfoldable pub load : Result String Settings
  unfolding deserialized
  load = elim (host.env_var "DATABASE_URL") [
    | none ↦ deserialized app_env_of []
    | some url ↦ elim (host.set_override "db.url" url) [
      | err e ↦ err e
      | ok _ ↦ deserialized app_env_of (("db.url", url) ∷ [])
    ]
  ]
