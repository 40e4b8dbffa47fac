-- ===== src/Api/Router/AuthKeeps.antt =====
-- Invariants of the tables under the functions of crates/auth and the extractor of the access
-- token.
use rust_generic_user_backen.Base.{String}
use rust_generic_user_backen.Core.Role.{Role}
use rust_generic_user_backen.Core.User.{Uuid}
use rust_generic_user_backen.Core.Error.{AppError}
use rust_generic_user_backen.Auth.Types.{JwtConfig, GoogleConfig, BasicClient}
use rust_generic_user_backen.Auth.Password.{hash_password}
use rust_generic_user_backen.Auth.Tokens.{generate_refresh_token}
use rust_generic_user_backen.Auth.Jwt.{issue, verify}
use rust_generic_user_backen.Auth.Google.{google_client, google_authorize_url, google_exchange_code}
use rust_generic_user_backen.Db.Schema.{Db}
use rust_generic_user_backen.Env.{Env}
use rust_generic_user_backen.App.Keeps.{Keeps, OthersKeep, keeps_rules}
use rust_generic_user_backen.Api.State.{AppState}
use rust_generic_user_backen.Api.Extract.{auth_user}
use rust_generic_user_backen.Api.Auth.Tokens.{generate_verification_token}
use rust_generic_user_backen.Api.Router.{Authorization}

module _ {ℓ} {P : Db → Type ℓ} (env : Env) where
  pub hash_password-Keeps : (plain : String) → Keeps P (hash_password env plain)
  unfolding hash_password
  hash_password-Keeps plain = search keeps_rules

  pub generate_refresh_token-Keeps : Keeps P (generate_refresh_token env {E = AppError})
  unfolding generate_refresh_token
  generate_refresh_token-Keeps = search keeps_rules

  pub issue-Keeps : (cfg : JwtConfig) (id : Uuid) (role : Role) → Keeps P (issue env cfg id role)
  unfolding issue
  issue-Keeps cfg id role = search keeps_rules depth 8

  pub verify-Keeps : (cfg : JwtConfig) (token : String) → Keeps P (verify env cfg token)
  unfolding verify
  verify-Keeps cfg token = search keeps_rules

  pub google_client-Keeps : (cfg : GoogleConfig) → Keeps P (google_client env cfg)
  unfolding google_client
  google_client-Keeps cfg = search keeps_rules depth 10

  pub google_authorize_url-Keeps :
      (client : BasicClient) → Keeps P (google_authorize_url env client)
  unfolding google_authorize_url
  google_authorize_url-Keeps client = search keeps_rules

  pub google_exchange_code-Keeps :
      (client : BasicClient) (code : String) → Keeps P (google_exchange_code env client code)
  unfolding google_exchange_code
  google_exchange_code-Keeps client code = search keeps_rules depth 12

  pub generate_verification_token-Keeps :
      {E : Type 0} → Keeps P (generate_verification_token env {E = E})
  unfolding generate_verification_token
  generate_verification_token-Keeps = search keeps_rules depth 8

  pub auth_user-Keeps :
      (state : AppState) (authorization : Authorization)
      → Keeps P (auth_user env state authorization)
  unfolding auth_user
  auth_user-Keeps state authorization = search (keeps_rules, verify-Keeps) depth 12

pub ruleset auth_functions = (
  keeps_rules, hash_password-Keeps, generate_refresh_token-Keeps, issue-Keeps, google_client-Keeps,
  google_authorize_url-Keeps, google_exchange_code-Keeps, generate_verification_token-Keeps,
  auth_user-Keeps,
)
