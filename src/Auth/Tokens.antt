-- ===== src/Auth/Tokens.antt =====
-- crates/auth/src/tokens.rs.
use rust_generic_user_backen.Base.{String}
use rust_generic_user_backen.Env.{Env}
use rust_generic_user_backen.App.{App, pure, fill_bytes, ◌>>=◌}

module _ (env : Env) where
  unfoldable pub generate_refresh_token : {E : Type 0} → App E String
  generate_refresh_token = do bytes ← fill_bytes env; pure (env.hex_encode bytes)

  unfoldable pub hash_refresh_token : String → String
  hash_refresh_token token = env.hex_encode (env.sha256 token)
