-- ===== src/Db/Program.antt =====
-- An invariant of all statements of the program.
use rust_generic_user_backen.Base.{ℕ, String, Bool, Option}
use rust_generic_user_backen.Base.Int.{ℤ}
use rust_generic_user_backen.Core.Role.{Role}
use rust_generic_user_backen.Core.User.{Uuid, OffsetDateTime}
use rust_generic_user_backen.Db.Schema.{Db, Statement}
use rust_generic_user_backen.Db.Users.{
  NewUser, select_role_id, update_role, update_active, update_email_verified, update_password,
  select_page, insert_user, select_by_email, select_by_id,
}
use rust_generic_user_backen.Db.Permissions.{select_permissions, upsert_permission}
use rust_generic_user_backen.Db.OauthIdentities.{upsert_identity, select_by_oauth}
use rust_generic_user_backen.Db.RefreshTokens.{
  insert_refresh_token, update_revoked, select_refresh_token, update_all_revoked,
}
use rust_generic_user_backen.Db.OneTimeTokens.{
  insert_verification, insert_reset, use_verification, use_reset,
}
use rust_generic_user_backen.Db.Frames.{
  Table, nothing, users, identities, refresh_tokens, verifications, resets, overrides, restore,
  Touches, KeepsStatement-of_Touches, insert_user-Touches, update_role-Touches,
  update_active-Touches, update_email_verified-Touches, update_password-Touches,
  upsert_permission-Touches, upsert_identity-Touches, insert_refresh_token-Touches,
  update_revoked-Touches, update_all_revoked-Touches, insert_verification-Touches,
  use_verification-Touches, insert_reset-Touches, use_reset-Touches, select_role_id-Touches,
  select_by_id-Touches, select_page-Touches, select_permissions-Touches, select_by_oauth-Touches,
  select_refresh_token-Touches, select_by_email-Touches,
}
use rust_generic_user_backen.Env.{Env}
use rust_generic_user_backen.App.Keeps.{KeepsStatement}

-- The statements that change a table keep `P`, with whatever arguments: a record for each table.
pub record UsersKeep {ℓ} (env : Env) (P : Db → Type ℓ) : Type ℓ where
  pub insert_user_keeps :
      (new : NewUser) (role_id : ℕ) → KeepsStatement P (insert_user env new role_id)
  pub update_role_keeps : (id : Uuid) (role_id : ℕ) → KeepsStatement P (update_role id role_id)
  pub update_active_keeps : (id : Uuid) (active : Bool) → KeepsStatement P (update_active id active)
  pub update_email_verified_keeps : (id : Uuid) → KeepsStatement P (update_email_verified id)
  pub update_password_keeps : (id : Uuid) (phc : String) → KeepsStatement P (update_password id phc)

pub record IdentitiesKeep {ℓ} (P : Db → Type ℓ) : Type ℓ where
  pub upsert_identity_keeps :
      (id : Uuid) (provider subject : String) (email : Option String) (raw : String)
      → KeepsStatement P (upsert_identity id provider subject email raw)

pub record RefreshTokensKeep {ℓ} (P : Db → Type ℓ) : Type ℓ where
  pub insert_refresh_token_keeps :
      (id : Uuid) (hash : String) (expires_at : OffsetDateTime) (agent : Option String)
      → KeepsStatement P (insert_refresh_token id hash expires_at agent)
  pub update_revoked_keeps : (hash : String) → KeepsStatement P (update_revoked hash)
  pub update_all_revoked_keeps : (id : Uuid) → KeepsStatement P (update_all_revoked id)

pub record VerificationsKeep {ℓ} (P : Db → Type ℓ) : Type ℓ where
  pub insert_verification_keeps :
      (id : Uuid) (hash : String) (expires_at : OffsetDateTime)
      → KeepsStatement P (insert_verification id hash expires_at)
  pub use_verification_keeps : (hash : String) → KeepsStatement P (use_verification hash)

pub record ResetsKeep {ℓ} (P : Db → Type ℓ) : Type ℓ where
  pub insert_reset_keeps :
      (id : Uuid) (hash : String) (expires_at : OffsetDateTime)
      → KeepsStatement P (insert_reset id hash expires_at)
  pub use_reset_keeps : (hash : String) → KeepsStatement P (use_reset hash)

pub record OverridesKeep {ℓ} (P : Db → Type ℓ) : Type ℓ where
  pub upsert_permission_keeps :
      (id : Uuid) (name : String) (grant : Bool)
      → KeepsStatement P (upsert_permission id name grant)

-- Every statement of the program keeps `P`.
pub record KeptByProgram {ℓ} (env : Env) (P : Db → Type ℓ) : Type ℓ where
  pub users_keep : UsersKeep env P
  pub identities_keep : IdentitiesKeep P
  pub refresh_tokens_keep : RefreshTokensKeep P
  pub verifications_keep : VerificationsKeep P
  pub resets_keep : ResetsKeep P
  pub overrides_keep : OverridesKeep P

-- A statement that only reads keeps everything.
module _ {ℓ} (P : Db → Type ℓ) where
  reads : {A : Type 0} (stmt : Statement A) → Touches nothing stmt → KeepsStatement P stmt
  reads stmt = KeepsStatement-of_Touches P nothing stmt (λ r d h. h)

  pub select_role_id_keeps : (role : Role) → KeepsStatement P (select_role_id role)
  select_role_id_keeps role = reads _ (select_role_id-Touches role)

  pub select_by_id_keeps : (id : Uuid) → KeepsStatement P (select_by_id id)
  select_by_id_keeps id = reads _ (select_by_id-Touches id)

  pub select_page_keeps : (limit offset : ℤ) → KeepsStatement P (select_page limit offset)
  select_page_keeps limit offset = reads _ (select_page-Touches limit offset)

  pub select_permissions_keeps : (id : Uuid) → KeepsStatement P (select_permissions id)
  select_permissions_keeps id = reads _ (select_permissions-Touches id)

  pub select_by_oauth_keeps :
      (provider subject : String) → KeepsStatement P (select_by_oauth provider subject)
  select_by_oauth_keeps provider subject = reads _ (select_by_oauth-Touches provider subject)

  pub select_refresh_token_keeps : (hash : String) → KeepsStatement P (select_refresh_token hash)
  select_refresh_token_keeps hash = reads _ (select_refresh_token-Touches hash)

  pub select_by_email_keeps :
      (env : Env) (email : String) → KeepsStatement P (select_by_email env email)
  select_by_email_keeps env email = reads _ (select_by_email-Touches env email)

pub ruleset reading = (
  select_role_id_keeps, select_by_id_keeps, select_page_keeps, select_permissions_keeps,
  select_by_oauth_keeps, select_refresh_token_keeps, select_by_email_keeps,
)

-- A property that does not look at a table is kept by the statements that change it.
module _ {ℓ} (P : Db → Type ℓ) where
  abbrev pub Ignores : Table → Type ℓ
  Ignores t = (r d : Db) → P (restore t r d) → P r

  keep :
      {A : Type 0} (t : Table) (stmt : Statement A)
      → Ignores t
      → Touches t stmt
      → KeepsStatement P stmt
  keep t stmt = KeepsStatement-of_Touches P t stmt

  pub users_ignored : (env : Env) → Ignores users → UsersKeep env P
  users_ignored env blind = record {
    insert_user_keeps = λ new role_id. keep users _ blind (insert_user-Touches env new role_id);
    update_role_keeps = λ id role_id. keep users _ blind (update_role-Touches id role_id);
    update_active_keeps = λ id active. keep users _ blind (update_active-Touches id active);
    update_email_verified_keeps = λ id. keep users _ blind (update_email_verified-Touches id);
    update_password_keeps = λ id phc. keep users _ blind (update_password-Touches id phc);
  }

  pub identities_ignored : Ignores identities → IdentitiesKeep P
  identities_ignored blind = record {
    upsert_identity_keeps = λ id provider subject email raw.
        keep identities _ blind (upsert_identity-Touches id provider subject email raw);
  }

  pub refresh_tokens_ignored : Ignores refresh_tokens → RefreshTokensKeep P
  refresh_tokens_ignored blind = record {
    insert_refresh_token_keeps = λ id hash expires_at agent.
        keep refresh_tokens _ blind (insert_refresh_token-Touches id hash expires_at agent);
    update_revoked_keeps = λ hash. keep refresh_tokens _ blind (update_revoked-Touches hash);
    update_all_revoked_keeps = λ id. keep refresh_tokens _ blind (update_all_revoked-Touches id);
  }

  pub verifications_ignored : Ignores verifications → VerificationsKeep P
  verifications_ignored blind = record {
    insert_verification_keeps = λ id hash expires_at.
        keep verifications _ blind (insert_verification-Touches id hash expires_at);
    use_verification_keeps = λ hash. keep verifications _ blind (use_verification-Touches hash);
  }

  pub resets_ignored : Ignores resets → ResetsKeep P
  resets_ignored blind = record {
    insert_reset_keeps =
        λ id hash expires_at. keep resets _ blind (insert_reset-Touches id hash expires_at);
    use_reset_keeps = λ hash. keep resets _ blind (use_reset-Touches hash);
  }

  pub overrides_ignored : Ignores overrides → OverridesKeep P
  overrides_ignored blind = record {
    upsert_permission_keeps =
        λ id name grant. keep overrides _ blind (upsert_permission-Touches id name grant);
  }
