-- ===== src/Api/Server/Keeps.antt =====
-- Invariants of the tables: from the statements of the program to a run of the server.
use rust_generic_user_backen.Base.{ℕ, String, Bool, true, false, Option, none, some}
use rust_generic_user_backen.Base.Result.{Result}
use rust_generic_user_backen.Core.Error.{AppError}
use rust_generic_user_backen.Db.Schema.{Db, SqlxError}
use rust_generic_user_backen.Db.Connection.{DbConfig, Migrator, connect, run_migrations}
use rust_generic_user_backen.Db.Program.{KeptByProgram}
use rust_generic_user_backen.Env.{Env}
use rust_generic_user_backen.App.{App}
use rust_generic_user_backen.App.Keeps.{Keeps, OthersKeep, keeps_rules, Keeps-map_err}
use rust_generic_user_backen.Api.Config.{Settings}
use rust_generic_user_backen.Api.Host.{Host}
use rust_generic_user_backen.Api.CreateAdmin.{CreateAdminArgs, create_admin_user, pool_port}
use rust_generic_user_backen.Api.Cli.{Command, create_admin, execute, main}
use rust_generic_user_backen.Api.Server.{Application, migrate_on_start, build, axum_serve, run}
use rust_generic_user_backen.Api.Router.{Request, Reply, serve}
use rust_generic_user_backen.Api.Router.AuthKeeps.{hash_password-Keeps}
use rust_generic_user_backen.Api.Router.DbKeeps.{create_user-Keeps}
use rust_generic_user_backen.Api.Router.Keeps.{serve-Keeps}

-- The migrations keep `P`, whether they succeed or fail.
pub record MigratorKeeps {ℓ} (P : Db → Type ℓ) (migrator : Migrator) : Type ℓ where
  pub at : (n : ℕ) (d : Db) → P d → P (migrator n d).1

-- Serving routes that keep `P` keeps `P`, however the requests come.
pub record ServerKeeps {ℓ} (P : Db → Type ℓ)
    (server : (Request → App AppError Reply) → App String Unit) : Type ℓ where
  pub at :
      (routes : Request → App AppError Reply)
      → ((r : Request) → Keeps P (routes r))
      → Keeps P (server routes)

module _ {ℓ} {P : Db → Type ℓ} (env : Env) (others : OthersKeep env P) where
  connect-Keeps :
      (open_pool : ℕ → DbConfig → Result SqlxError Unit) (cfg : DbConfig)
      → Keeps P (connect env open_pool cfg)
  unfolding connect
  connect-Keeps open_pool cfg = search keeps_rules

  run_migrations-Keeps :
      (migrator : Migrator) → MigratorKeeps P migrator → Keeps P (run_migrations env migrator)
  unfolding run_migrations
  run_migrations-Keeps migrator k = record {
    at = λ w h. k.at w.effects _ (others.at w.effects w.db h);
  }

  module _ (kept : KeptByProgram env P) where
    create_admin_user-Keeps :
        (args : CreateAdminArgs) → Keeps P (create_admin_user env (pool_port env) args)
    unfolding create_admin_user pool_port
    create_admin_user-Keeps args =
        search (keeps_rules, hash_password-Keeps, create_user-Keeps, others, kept) depth 8

    module _ (host : Host) (migrates : MigratorKeeps P host.migrate)
        (serves : ServerKeeps P host.serve) where
      migrate_on_start-Keeps : (b : Bool) → Keeps P (migrate_on_start env host b)
      unfolding migrate_on_start
      migrate_on_start-Keeps true = run_migrations-Keeps host.migrate migrates
      migrate_on_start-Keeps false = search keeps_rules

      build-Keeps : (settings : Settings) → Keeps P (build env host settings)
      unfolding build
      build-Keeps settings = search (keeps_rules, connect-Keeps, migrate_on_start-Keeps) depth 12

      axum_serve-Keeps : (app : Application) → Keeps P (axum_serve env host app)
      unfolding axum_serve
      axum_serve-Keeps app =
          Keeps-map_err _ _
            (serves.at (serve env app.state) (serve-Keeps env others kept app.state))

      run-Keeps : (settings : Settings) → Keeps P (run env host settings)
      unfolding run
      run-Keeps settings = search (keeps_rules, build-Keeps, axum_serve-Keeps) depth 12

      execute-Keeps :
          (command : Option Command) (settings : Settings)
          → Keeps P (execute env host command settings)
      unfolding execute
      execute-Keeps none settings = search (keeps_rules, run-Keeps) depth 8
      execute-Keeps (some (create_admin email password)) settings =
          search (keeps_rules, connect-Keeps, create_admin_user-Keeps) depth 12

      pub main-Keeps : (command : Option Command) → Keeps P (main env host command)
      unfolding main
      main-Keeps command = search (keeps_rules, execute-Keeps) depth 8
