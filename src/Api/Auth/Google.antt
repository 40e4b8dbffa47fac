-- ===== src/Api/Auth/Google.antt =====
-- The Google handlers of crates/api/src/routes/auth.rs.
pub mod SignedIn
use rust_generic_user_backen.Base.{String, Option, none, some, is_some, str_eq, if◌then◌else◌}
use rust_generic_user_backen.Core.Role
use rust_generic_user_backen.Core.User.{User}
use rust_generic_user_backen.Core.Error.{AppError, bad_request}
use rust_generic_user_backen.Auth.Google.{google_client, google_authorize_url, google_exchange_code}
use rust_generic_user_backen.Db.Users.{create_user}
use rust_generic_user_backen.Db.OauthIdentities.{find_user_by_oauth, upsert_oauth_identity}
use rust_generic_user_backen.Env.{Env}
use rust_generic_user_backen.App.{App, pure, raise, db, ◌>>=◌, ◌>>◌}
use rust_generic_user_backen.Api.State.{AppState, google_config}
use rust_generic_user_backen.Api.Auth.Tokens.{TokenPair, issue_tokens}

pub record OauthCallbackQuery : Type 0 where
  pub code : String
  pub state : Option String

module _ (env : Env) where
  -- The URL of the redirect.
  unfoldable pub google_start : AppState → App AppError String
  google_start state =
      if str_eq (google_config state).client_id ""
      then raise (bad_request "google oauth disabled")
      else do
        client ← google_client env (google_config state)
        (url, csrf) ← google_authorize_url env client
        pure url

  unfoldable pub upsert_found :
      String → String → Option String → Option String → String → Option User → App AppError User
  upsert_found provider subject email display raw (some u) = do
    db env (upsert_oauth_identity env u.id provider subject email raw)
    pure u
  upsert_found provider subject email display raw none = do
    user ← db env (
        create_user env (record {
          email = email;
          password_hash = none;
          display_name = display;
          role = Role.user;
          email_verified = is_some email;
        }))
    db env (upsert_oauth_identity env user.id provider subject email raw)
    pure user

  unfoldable pub upsert_oauth_user :
      String → String → Option String → Option String → String → App AppError User
  unfolding upsert_found
  upsert_oauth_user provider subject email display raw = do
    found ← db env (find_user_by_oauth env provider subject)
    upsert_found provider subject email display raw found

  unfoldable pub google_callback : AppState → OauthCallbackQuery → App AppError TokenPair
  google_callback state q = do
    client ← google_client env (google_config state)
    profile ← google_exchange_code env client q.code
    user ←
        upsert_oauth_user "google" profile.sub profile.email profile.name
          (env.json_of_profile profile)
    issue_tokens env state user.id user.role none
