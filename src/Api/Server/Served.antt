-- ===== src/Api/Server/Served.antt =====
-- The whole process, of crates/api/src/main.rs and crates/api/src/lib.rs: what it keeps of the
-- tables.
use rust_generic_user_backen.Base.{Option}
use rust_generic_user_backen.Db.Consistent.{IsConsistent}
use rust_generic_user_backen.Db.Consistent.Kept.{IsConsistent-KeptByProgram}
use rust_generic_user_backen.Env.{Env}
use rust_generic_user_backen.App.{World}
use rust_generic_user_backen.App.Keeps.{OthersKeep}
use rust_generic_user_backen.Api.Host.{Host}
use rust_generic_user_backen.Api.Cli.{Command, main}
use rust_generic_user_backen.Api.Server.Keeps.{MigratorKeeps, ServerKeeps, main-Keeps}

-- The process keeps the primary and unique keys and the references of its tables, whichever command
-- it is run with, and at whatever point it fails, if the migrations and the other requests keep
-- them, and if serving routes that keep them does.
pub main-IsConsistent :
    (env : Env) (host : Host) (command : Option Command) (w : World)
    → OthersKeep env (IsConsistent env)
    → MigratorKeeps (IsConsistent env) host.migrate
    → ServerKeeps (IsConsistent env) host.serve
    → IsConsistent env w.db
    → IsConsistent env (main env host command w).1.db
main-IsConsistent env host command w others migrates serves h =
    (main-Keeps env others (IsConsistent-KeptByProgram env) host migrates serves command).at w h
