-- ===== src/Api/Auth/Google/SignedIn.antt =====
-- Whom the Google callback signs in.
use rust_generic_user_backen.Base.{◌≡◌, ◌⊎◌, Option, none, some, is_some}
use rust_generic_user_backen.Base.Result.{ok}
use rust_generic_user_backen.Core.Role
use rust_generic_user_backen.Core.User.{User}
use rust_generic_user_backen.Auth.Types.{BasicClient, GoogleProfile}
use rust_generic_user_backen.Auth.Google.{google_client, google_exchange_code}
use rust_generic_user_backen.Db.Users.{NewUser}
use rust_generic_user_backen.Db.Users.Created.{Created}
use rust_generic_user_backen.Db.OauthIdentities.{upsert_identity, select_by_oauth}
use rust_generic_user_backen.Env.{Env}
use rust_generic_user_backen.App.{World}
use rust_generic_user_backen.App.Inversion.{Ran}
use rust_generic_user_backen.Api.State.{AppState, google_config}
use rust_generic_user_backen.Api.Auth.Tokens.{TokenPair}
use rust_generic_user_backen.Api.Auth.Tokens.Issued.{Issued}
use rust_generic_user_backen.Api.Auth.Google.{OauthCallbackQuery}

module _ (env : Env) (profile : GoogleProfile) where
  -- The account that is made for a profile.
  abbrev pub account_of : NewUser
  account_of = record {
    email = profile.email;
    password_hash = none;
    display_name = profile.name;
    role = Role.user;
    email_verified = is_some profile.email;
  }

  -- The user that a query found for the identity, or one that was created when it found none; then
  -- the identity was written for that user.
  pub record Linked (w : World) (user : User) (w' : World) : Type 0 where
    pub found : Option User
    pub v : World
    pub asked : Ran env (select_by_oauth "google" profile.sub) w found v
    pub u : World
    pub known : ((found ≡ some user) × (u ≡ v)) ⊎ ((found ≡ none) × Created env account_of user v u)
    pub linked :
        Ran env
          (upsert_identity user.id "google" profile.sub profile.email (env.json_of_profile profile))
          u
          tt
          w'

module _ (env : Env) (state : AppState) (q : OauthCallbackQuery) where
  pub record SignedIn (w : World) (pair : TokenPair) (w' : World) : Type 0 where
    pub client : BasicClient
    pub profile : GoogleProfile
    pub user : User
    pub before : World
    pub built : google_client env (google_config state) w ≡ (ok client, before)
    pub asked : World
    pub exchanged : google_exchange_code env client q.code before ≡ (ok profile, asked)
    pub v : World
    pub linked : Linked env profile asked user v
    pub issued : Issued env state user.id user.role v pair w'
