-- ===== src/Db/Connection.antt =====
-- `DbConfig`, `connect` and `run_migrations` of crates/db/src/lib.rs. What sqlx does is given.
use rust_generic_user_backen.Base.{ℕ, ◌+◌, String}
use rust_generic_user_backen.Base.Result.{Result, map_err}
use rust_generic_user_backen.Db.Schema.{SqlxError, DbError, sqlx, migrate, Db}
use rust_generic_user_backen.Env.{Env}
use rust_generic_user_backen.App.{App, draw, lift, ◌>>=◌}

pub record DbConfig : Type 0 where
  pub url : String
  pub max_connections : ℕ
  pub min_connections : ℕ
  pub acquire_timeout_secs : ℕ

-- The migrations that are run, from the number of the effect and the tables.
abbrev pub Migrator : Type 0
Migrator = ℕ → Db → Result String Unit × Db

module _ (env : Env) where
  unfoldable pub connect : (ℕ → DbConfig → Result SqlxError Unit) → DbConfig → App DbError Unit
  connect open_pool cfg = do opened ← draw env (λ n. open_pool n cfg); lift (map_err sqlx opened)

  -- `MIGRATOR.run`: every error of it is a `MigrateError`.
  unfoldable pub run_migrations : Migrator → App DbError Unit
  run_migrations migrator w =
      let (outcome, after) = migrator w.effects (env.others w.effects w.db) in
      (map_err migrate outcome, record w { db = after; effects = w.effects + 1 })
