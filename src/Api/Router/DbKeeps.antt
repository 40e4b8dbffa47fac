-- ===== src/Api/Router/DbKeeps.antt =====
-- Invariants of the tables: from the statements of the program to the functions of crates/db.
use rust_generic_user_backen.Base.{String, Bool, Option}
use rust_generic_user_backen.Base.Int.{ℤ}
use rust_generic_user_backen.Core.Role.{Role}
use rust_generic_user_backen.Core.User.{Uuid, OffsetDateTime}
use rust_generic_user_backen.Db.Schema.{Db}
use rust_generic_user_backen.Db.Program.{KeptByProgram, reading}
use rust_generic_user_backen.Db.Users
use rust_generic_user_backen.Db.Users.{NewUser, UserWithSecret}
use rust_generic_user_backen.Db.Permissions.{permissions_for}
use rust_generic_user_backen.Db.OauthIdentities.{find_user_by_oauth, upsert_oauth_identity}
use rust_generic_user_backen.Db.RefreshTokens.{
  store_refresh_token, revoke_refresh_token, lookup_refresh_token, revoke_all_refresh_tokens,
}
use rust_generic_user_backen.Db.OneTimeTokens.{
  store_email_verification_token, consume_email_verification_token, store_password_reset_token,
  consume_password_reset_token,
}
use rust_generic_user_backen.Env.{Env}
use rust_generic_user_backen.App.Keeps.{Keeps, OthersKeep, keeps_rules}

-- The functions of crates/db.
module _ {ℓ} {P : Db → Type ℓ} (env : Env) (others : OthersKeep env P)
    (kept : KeptByProgram env P) where
  open kept.users_keep use {
    insert_user_keeps, update_role_keeps, update_active_keeps, update_email_verified_keeps,
    update_password_keeps,
  }
  open kept.identities_keep use {upsert_identity_keeps}
  open kept.refresh_tokens_keep use {
    insert_refresh_token_keeps, update_revoked_keeps, update_all_revoked_keeps,
  }
  open kept.verifications_keep use {insert_verification_keeps, use_verification_keeps}
  open kept.resets_keep use {insert_reset_keeps, use_reset_keeps}

  pub create_user-Keeps : (new : NewUser) → Keeps P (Users.create_user env new)
  unfolding Users.create_user
  create_user-Keeps new = search (keeps_rules, reading, insert_user_keeps, others) depth 8

  pub find_by_email-Keeps : (email : String) → Keeps P (Users.find_by_email env email)
  unfolding Users.find_by_email
  find_by_email-Keeps email = search (keeps_rules, reading, others)

  pub find_by_id-Keeps : (id : Uuid) → Keeps P (Users.find_by_id env id)
  unfolding Users.find_by_id
  find_by_id-Keeps id = search (keeps_rules, reading, others)

  pub list_users-Keeps : (limit offset : ℤ) → Keeps P (Users.list_users env limit offset)
  unfolding Users.list_users
  list_users-Keeps limit offset = search (keeps_rules, reading, others)

  pub set_role-Keeps : (id : Uuid) (role : Role) → Keeps P (Users.set_role env id role)
  unfolding Users.set_role
  set_role-Keeps id role = search (keeps_rules, reading, update_role_keeps, others) depth 8

  pub set_active-Keeps : (id : Uuid) (active : Bool) → Keeps P (Users.set_active env id active)
  unfolding Users.set_active
  set_active-Keeps id active = search (keeps_rules, reading, update_active_keeps, others)

  pub mark_email_verified-Keeps : (id : Uuid) → Keeps P (Users.mark_email_verified env id)
  unfolding Users.mark_email_verified
  mark_email_verified-Keeps id = search (keeps_rules, reading, update_email_verified_keeps, others)

  pub update_password_hash-Keeps :
      (id : Uuid) (phc : String) → Keeps P (Users.update_password_hash env id phc)
  unfolding Users.update_password_hash
  update_password_hash-Keeps id phc = search (keeps_rules, reading, update_password_keeps, others)

  pub permissions_for-Keeps : (id : Uuid) → Keeps P (permissions_for env id)
  unfolding permissions_for
  permissions_for-Keeps id = search (keeps_rules, reading, others)

  pub find_user_by_oauth-Keeps :
      (provider subject : String) → Keeps P (find_user_by_oauth env provider subject)
  unfolding find_user_by_oauth
  find_user_by_oauth-Keeps provider subject = search (keeps_rules, reading, others)

  pub upsert_oauth_identity-Keeps :
      (id : Uuid) (provider subject : String) (email : Option String) (raw : String)
      → Keeps P (upsert_oauth_identity env id provider subject email raw)
  unfolding upsert_oauth_identity
  upsert_oauth_identity-Keeps id provider subject email raw =
      search (keeps_rules, reading, upsert_identity_keeps, others)

  pub store_refresh_token-Keeps :
      (id : Uuid) (hash : String) (expires_at : OffsetDateTime) (agent : Option String)
      → Keeps P (store_refresh_token env id hash expires_at agent)
  unfolding store_refresh_token
  store_refresh_token-Keeps id hash expires_at agent =
      search (keeps_rules, reading, insert_refresh_token_keeps, others)

  pub revoke_refresh_token-Keeps : (hash : String) → Keeps P (revoke_refresh_token env hash)
  unfolding revoke_refresh_token
  revoke_refresh_token-Keeps hash = search (keeps_rules, reading, update_revoked_keeps, others)

  pub lookup_refresh_token-Keeps : (hash : String) → Keeps P (lookup_refresh_token env hash)
  unfolding lookup_refresh_token
  lookup_refresh_token-Keeps hash = search (keeps_rules, reading, others)

  pub revoke_all_refresh_tokens-Keeps : (id : Uuid) → Keeps P (revoke_all_refresh_tokens env id)
  unfolding revoke_all_refresh_tokens
  revoke_all_refresh_tokens-Keeps id =
      search (keeps_rules, reading, update_all_revoked_keeps, others)

  pub store_email_verification_token-Keeps :
      (id : Uuid) (hash : String) (expires_at : OffsetDateTime)
      → Keeps P (store_email_verification_token env id hash expires_at)
  unfolding store_email_verification_token
  store_email_verification_token-Keeps id hash expires_at =
      search (keeps_rules, reading, insert_verification_keeps, others)

  pub consume_email_verification_token-Keeps :
      (hash : String) → Keeps P (consume_email_verification_token env hash)
  unfolding consume_email_verification_token
  consume_email_verification_token-Keeps hash =
      search (keeps_rules, reading, use_verification_keeps, others)

  pub store_password_reset_token-Keeps :
      (id : Uuid) (hash : String) (expires_at : OffsetDateTime)
      → Keeps P (store_password_reset_token env id hash expires_at)
  unfolding store_password_reset_token
  store_password_reset_token-Keeps id hash expires_at =
      search (keeps_rules, reading, insert_reset_keeps, others)

  pub consume_password_reset_token-Keeps :
      (hash : String) → Keeps P (consume_password_reset_token env hash)
  unfolding consume_password_reset_token
  consume_password_reset_token-Keeps hash = search (keeps_rules, reading, use_reset_keeps, others)

pub ruleset db_functions = (
  create_user-Keeps, find_by_email-Keeps, find_by_id-Keeps, list_users-Keeps, set_role-Keeps,
  set_active-Keeps, mark_email_verified-Keeps, update_password_hash-Keeps, permissions_for-Keeps,
  find_user_by_oauth-Keeps, upsert_oauth_identity-Keeps, store_refresh_token-Keeps,
  revoke_refresh_token-Keeps, lookup_refresh_token-Keeps, revoke_all_refresh_tokens-Keeps,
  store_email_verification_token-Keeps, consume_email_verification_token-Keeps,
  store_password_reset_token-Keeps, consume_password_reset_token-Keeps,
)
