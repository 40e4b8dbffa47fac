-- ===== src/Api/Cli.antt =====
-- crates/api/src/main.rs: the two commands. The result is what is printed on the standard output.
pub mod Created
use rust_generic_user_backen.Base.{ℕ, String, Option, none, some, List, [], ◌∷◌, unwrap_or}
use rust_generic_user_backen.Base.Text.{◌<>◌}
use rust_generic_user_backen.Base.Result
use rust_generic_user_backen.Core.Error.{to_string}
use rust_generic_user_backen.Core.User.{User}
use rust_generic_user_backen.Db.Connection.{connect}
use rust_generic_user_backen.Env.{Env}
use rust_generic_user_backen.App.{App, pure, lift, map_err, ◌>>=◌, ◌>>◌}
use rust_generic_user_backen.Api.Config.{Settings}
use rust_generic_user_backen.Api.Config.Load.{load}
use rust_generic_user_backen.Api.Host.{Host}
use rust_generic_user_backen.Api.Server.{chain_db, run}
use rust_generic_user_backen.Api.CreateAdmin.{create_admin_user, pool_port}

pub data Command : Type 0 where
  create_admin : (email password : String) → Command

module _ (env : Env) (host : Host) where
  unfoldable pub admin_created : User → String
  admin_created user =
      "Admin created: " <> unwrap_or user.email "" <> " (" <> host.uuid_display user.id <> ")"

  unfoldable pub execute : Option Command → Settings → App (List String) (List String)
  unfolding admin_created
  execute none settings = do run env host settings; pure []
  execute (some (create_admin email password)) settings = do
    map_err (chain_db env host) (
        connect env host.connect (record {
          url = settings.db.url;
          max_connections = 2;
          min_connections = 1;
          acquire_timeout_secs = settings.db.acquire_timeout_secs;
        }))
    user ←
        map_err (λ e. to_string e ∷ [])
          (create_admin_user env (pool_port env) (record { email = email; password = password }))
    pure (admin_created user ∷ [])

  unfoldable pub main : Option Command → App (List String) (List String)
  main command = do
    settings ← lift (Result.map_err (λ e. e ∷ []) (load host))
    execute command settings
