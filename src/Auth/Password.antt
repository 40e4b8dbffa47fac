-- ===== src/Auth/Password.antt =====
-- crates/auth/src/password.rs.
use rust_generic_user_backen.Base.{String, Bool, none, some}
use rust_generic_user_backen.Base.Text.{◌<>◌}
use rust_generic_user_backen.Base.Result.{Result, ok, err, map_err}
use rust_generic_user_backen.Core.Error.{AppError, auth}
use rust_generic_user_backen.Env.{Env}
use rust_generic_user_backen.App.{App, lift, generate_salt, ◌>>=◌}

module _ (env : Env) where
  unfoldable pub hash_password : String → App AppError String
  hash_password plain = do
    salt ← generate_salt env
    lift (map_err (λ e. auth ("hash: " <> e)) (env.argon2_hash plain salt))

  unfoldable pub verify_password : String → String → Result AppError Bool
  verify_password plain phc = elim (env.phc_error phc) [
    | some e ↦ err (auth ("parse hash: " <> e))
    | none ↦ ok (env.argon2_matches plain phc)
  ]
