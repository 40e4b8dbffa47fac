-- ===== src/Db/Consistent/Kept.antt =====
-- Every statement of the program keeps every constraint.
use rust_generic_user_backen.Base.{refl}
use rust_generic_user_backen.Db.Schema.{Db, Statement}
use rust_generic_user_backen.Db.Program.{
  KeptByProgram, users_ignored, identities_ignored, refresh_tokens_ignored, verifications_ignored,
  resets_ignored, overrides_ignored, Ignores,
}
use rust_generic_user_backen.Db.Consistent.{
  Constraint, user_keys, token_hashes, verification_hashes, reset_hashes, identity_subjects,
  user_overrides, role_ids, sessions, verifications, resets, identities, overrides, session_ids,
  verification_ids, reset_ids, identity_ids, role_keys, permission_keys, role_permission_keys,
  role_permission_references, override_permissions, Holds, IsConsistent,
}
use rust_generic_user_backen.Db.Consistent.References.{Refers-UsersKeep, role_ids-UsersKeep}
use rust_generic_user_backen.Db.Consistent.Tables.{
  user_keys-UsersKeep, token_hashes-RefreshTokensKeep, sessions-RefreshTokensKeep,
  verification_hashes-VerificationsKeep, verifications-VerificationsKeep, reset_hashes-ResetsKeep,
  resets-ResetsKeep, identities-IdentitiesKeep, overrides-OverridesKeep,
  identity_subjects-IdentitiesKeep, user_overrides-OverridesKeep,
}
use rust_generic_user_backen.Db.Consistent.Ids.{
  session_ids-RefreshTokensKeep, verification_ids-VerificationsKeep, reset_ids-ResetsKeep,
  identity_ids-IdentitiesKeep, override_permissions-OverridesKeep,
}
use rust_generic_user_backen.Db.Frames.{Table}
use rust_generic_user_backen.Env.{Env}
use rust_generic_user_backen.App.Keeps.{KeepsStatement}

-- No statement changes roles, permissions, or the permissions of the roles.
catalogue :
    (env : Env) (P : Db → Type 0)
    → Ignores P Table.users
    → Ignores P Table.identities
    → Ignores P Table.refresh_tokens
    → Ignores P Table.verifications
    → Ignores P Table.resets
    → Ignores P Table.overrides
    → KeptByProgram env P
catalogue env P bu bi br bv bs bo = record {
  users_keep = users_ignored P env bu;
  identities_keep = identities_ignored P bi;
  refresh_tokens_keep = refresh_tokens_ignored P br;
  verifications_keep = verifications_ignored P bv;
  resets_keep = resets_ignored P bs;
  overrides_keep = overrides_ignored P bo;
}

-- A constraint on one table, and a reference from a table to `users`, ignore the other tables.
Holds-KeptByProgram : (env : Env) (c : Constraint) → KeptByProgram env (Holds env c)
Holds-KeptByProgram env user_keys = record {
  users_keep = user_keys-UsersKeep env;
  identities_keep = identities_ignored _ (λ r d h. h);
  refresh_tokens_keep = refresh_tokens_ignored _ (λ r d h. h);
  verifications_keep = verifications_ignored _ (λ r d h. h);
  resets_keep = resets_ignored _ (λ r d h. h);
  overrides_keep = overrides_ignored _ (λ r d h. h);
}
Holds-KeptByProgram env token_hashes = record {
  users_keep = users_ignored _ env (λ r d h. h);
  identities_keep = identities_ignored _ (λ r d h. h);
  refresh_tokens_keep = token_hashes-RefreshTokensKeep env;
  verifications_keep = verifications_ignored _ (λ r d h. h);
  resets_keep = resets_ignored _ (λ r d h. h);
  overrides_keep = overrides_ignored _ (λ r d h. h);
}
Holds-KeptByProgram env verification_hashes = record {
  users_keep = users_ignored _ env (λ r d h. h);
  identities_keep = identities_ignored _ (λ r d h. h);
  refresh_tokens_keep = refresh_tokens_ignored _ (λ r d h. h);
  verifications_keep = verification_hashes-VerificationsKeep env;
  resets_keep = resets_ignored _ (λ r d h. h);
  overrides_keep = overrides_ignored _ (λ r d h. h);
}
Holds-KeptByProgram env reset_hashes = record {
  users_keep = users_ignored _ env (λ r d h. h);
  identities_keep = identities_ignored _ (λ r d h. h);
  refresh_tokens_keep = refresh_tokens_ignored _ (λ r d h. h);
  verifications_keep = verifications_ignored _ (λ r d h. h);
  resets_keep = reset_hashes-ResetsKeep env;
  overrides_keep = overrides_ignored _ (λ r d h. h);
}
Holds-KeptByProgram env identity_subjects = record {
  users_keep = users_ignored _ env (λ r d h. h);
  identities_keep = identity_subjects-IdentitiesKeep env;
  refresh_tokens_keep = refresh_tokens_ignored _ (λ r d h. h);
  verifications_keep = verifications_ignored _ (λ r d h. h);
  resets_keep = resets_ignored _ (λ r d h. h);
  overrides_keep = overrides_ignored _ (λ r d h. h);
}
Holds-KeptByProgram env user_overrides = record {
  users_keep = users_ignored _ env (λ r d h. h);
  identities_keep = identities_ignored _ (λ r d h. h);
  refresh_tokens_keep = refresh_tokens_ignored _ (λ r d h. h);
  verifications_keep = verifications_ignored _ (λ r d h. h);
  resets_keep = resets_ignored _ (λ r d h. h);
  overrides_keep = user_overrides-OverridesKeep env;
}
Holds-KeptByProgram env role_ids = record {
  users_keep = role_ids-UsersKeep env;
  identities_keep = identities_ignored _ (λ r d h. h);
  refresh_tokens_keep = refresh_tokens_ignored _ (λ r d h. h);
  verifications_keep = verifications_ignored _ (λ r d h. h);
  resets_keep = resets_ignored _ (λ r d h. h);
  overrides_keep = overrides_ignored _ (λ r d h. h);
}
Holds-KeptByProgram env sessions = record {
  users_keep = Refers-UsersKeep (λ d. d.refresh_tokens) (λ t. t.user_id) (λ r d. refl) env;
  identities_keep = identities_ignored _ (λ r d h. h);
  refresh_tokens_keep = sessions-RefreshTokensKeep env;
  verifications_keep = verifications_ignored _ (λ r d h. h);
  resets_keep = resets_ignored _ (λ r d h. h);
  overrides_keep = overrides_ignored _ (λ r d h. h);
}
Holds-KeptByProgram env verifications = record {
  users_keep =
      Refers-UsersKeep (λ d. d.email_verification_tokens) (λ t. t.user_id) (λ r d. refl) env;
  identities_keep = identities_ignored _ (λ r d h. h);
  refresh_tokens_keep = refresh_tokens_ignored _ (λ r d h. h);
  verifications_keep = verifications-VerificationsKeep env;
  resets_keep = resets_ignored _ (λ r d h. h);
  overrides_keep = overrides_ignored _ (λ r d h. h);
}
Holds-KeptByProgram env resets = record {
  users_keep = Refers-UsersKeep (λ d. d.password_reset_tokens) (λ t. t.user_id) (λ r d. refl) env;
  identities_keep = identities_ignored _ (λ r d h. h);
  refresh_tokens_keep = refresh_tokens_ignored _ (λ r d h. h);
  verifications_keep = verifications_ignored _ (λ r d h. h);
  resets_keep = resets-ResetsKeep env;
  overrides_keep = overrides_ignored _ (λ r d h. h);
}
Holds-KeptByProgram env identities = record {
  users_keep = Refers-UsersKeep (λ d. d.oauth_identities) (λ a. a.user_id) (λ r d. refl) env;
  identities_keep = identities-IdentitiesKeep env;
  refresh_tokens_keep = refresh_tokens_ignored _ (λ r d h. h);
  verifications_keep = verifications_ignored _ (λ r d h. h);
  resets_keep = resets_ignored _ (λ r d h. h);
  overrides_keep = overrides_ignored _ (λ r d h. h);
}
Holds-KeptByProgram env overrides = record {
  users_keep = Refers-UsersKeep (λ d. d.user_permissions) (λ a. a.user_id) (λ r d. refl) env;
  identities_keep = identities_ignored _ (λ r d h. h);
  refresh_tokens_keep = refresh_tokens_ignored _ (λ r d h. h);
  verifications_keep = verifications_ignored _ (λ r d h. h);
  resets_keep = resets_ignored _ (λ r d h. h);
  overrides_keep = overrides-OverridesKeep env;
}
Holds-KeptByProgram env session_ids = record {
  users_keep = users_ignored _ env (λ r d h. h);
  identities_keep = identities_ignored _ (λ r d h. h);
  refresh_tokens_keep = session_ids-RefreshTokensKeep env;
  verifications_keep = verifications_ignored _ (λ r d h. h);
  resets_keep = resets_ignored _ (λ r d h. h);
  overrides_keep = overrides_ignored _ (λ r d h. h);
}
Holds-KeptByProgram env verification_ids = record {
  users_keep = users_ignored _ env (λ r d h. h);
  identities_keep = identities_ignored _ (λ r d h. h);
  refresh_tokens_keep = refresh_tokens_ignored _ (λ r d h. h);
  verifications_keep = verification_ids-VerificationsKeep env;
  resets_keep = resets_ignored _ (λ r d h. h);
  overrides_keep = overrides_ignored _ (λ r d h. h);
}
Holds-KeptByProgram env reset_ids = record {
  users_keep = users_ignored _ env (λ r d h. h);
  identities_keep = identities_ignored _ (λ r d h. h);
  refresh_tokens_keep = refresh_tokens_ignored _ (λ r d h. h);
  verifications_keep = verifications_ignored _ (λ r d h. h);
  resets_keep = reset_ids-ResetsKeep env;
  overrides_keep = overrides_ignored _ (λ r d h. h);
}
Holds-KeptByProgram env identity_ids = record {
  users_keep = users_ignored _ env (λ r d h. h);
  identities_keep = identity_ids-IdentitiesKeep env;
  refresh_tokens_keep = refresh_tokens_ignored _ (λ r d h. h);
  verifications_keep = verifications_ignored _ (λ r d h. h);
  resets_keep = resets_ignored _ (λ r d h. h);
  overrides_keep = overrides_ignored _ (λ r d h. h);
}
Holds-KeptByProgram env role_keys =
    catalogue env _ (λ r d h. h) (λ r d h. h) (λ r d h. h) (λ r d h. h) (λ r d h. h) (λ r d h. h)
Holds-KeptByProgram env permission_keys =
    catalogue env _ (λ r d h. h) (λ r d h. h) (λ r d h. h) (λ r d h. h) (λ r d h. h) (λ r d h. h)
Holds-KeptByProgram env role_permission_keys =
    catalogue env _ (λ r d h. h) (λ r d h. h) (λ r d h. h) (λ r d h. h) (λ r d h. h) (λ r d h. h)
Holds-KeptByProgram env role_permission_references =
    catalogue env _ (λ r d h. h) (λ r d h. h) (λ r d h. h) (λ r d h. h) (λ r d h. h) (λ r d h. h)
Holds-KeptByProgram env override_permissions = record {
  users_keep = users_ignored _ env (λ r d h. h);
  identities_keep = identities_ignored _ (λ r d h. h);
  refresh_tokens_keep = refresh_tokens_ignored _ (λ r d h. h);
  verifications_keep = verifications_ignored _ (λ r d h. h);
  resets_keep = resets_ignored _ (λ r d h. h);
  overrides_keep = override_permissions-OverridesKeep env;
}

-- A statement keeps all of them when it keeps each.
each :
    (env : Env) {A : Type 0} (stmt : Statement A)
    → ((c : Constraint) → KeepsStatement (Holds env c) stmt)
    → KeepsStatement (IsConsistent env) stmt
each env stmt k = record {
  at = λ now fresh d h. record { at = λ c. (k c).at now fresh d (h.at c) };
}

pub IsConsistent-KeptByProgram : (env : Env) → KeptByProgram env (IsConsistent env)
IsConsistent-KeptByProgram env = record {
  users_keep = record {
    insert_user_keeps = λ new role_id.
        each env _ (λ c. (Holds-KeptByProgram env c).users_keep.insert_user_keeps new role_id);
    update_role_keeps = λ id role_id.
        each env _ (λ c. (Holds-KeptByProgram env c).users_keep.update_role_keeps id role_id);
    update_active_keeps = λ id active.
        each env _ (λ c. (Holds-KeptByProgram env c).users_keep.update_active_keeps id active);
    update_email_verified_keeps = λ id.
        each env _ (λ c. (Holds-KeptByProgram env c).users_keep.update_email_verified_keeps id);
    update_password_keeps = λ id phc.
        each env _ (λ c. (Holds-KeptByProgram env c).users_keep.update_password_keeps id phc);
  };
  identities_keep = record {
    upsert_identity_keeps = λ id provider subject email raw. each env _ (λ c.
        (Holds-KeptByProgram env c).identities_keep.upsert_identity_keeps id provider subject email
          raw);
  };
  refresh_tokens_keep = record {
    insert_refresh_token_keeps = λ id hash expires_at agent. each env _ (λ c.
        (Holds-KeptByProgram env c).refresh_tokens_keep.insert_refresh_token_keeps id hash
          expires_at agent);
    update_revoked_keeps = λ hash.
        each env _ (λ c. (Holds-KeptByProgram env c).refresh_tokens_keep.update_revoked_keeps hash);
    update_all_revoked_keeps = λ id.
        each env _
          (λ c. (Holds-KeptByProgram env c).refresh_tokens_keep.update_all_revoked_keeps id);
  };
  verifications_keep = record {
    insert_verification_keeps = λ id hash expires_at. each env _ (λ c.
        (Holds-KeptByProgram env c).verifications_keep.insert_verification_keeps id hash
          expires_at);
    use_verification_keeps = λ hash.
        each env _
          (λ c. (Holds-KeptByProgram env c).verifications_keep.use_verification_keeps hash);
  };
  resets_keep = record {
    insert_reset_keeps = λ id hash expires_at.
        each env _
          (λ c. (Holds-KeptByProgram env c).resets_keep.insert_reset_keeps id hash expires_at);
    use_reset_keeps =
        λ hash. each env _ (λ c. (Holds-KeptByProgram env c).resets_keep.use_reset_keeps hash);
  };
  overrides_keep = record {
    upsert_permission_keeps = λ id name grant.
        each env _
          (λ c. (Holds-KeptByProgram env c).overrides_keep.upsert_permission_keeps id name grant);
  };
}
