-- ===== src/Db/Consistent/Tables.antt =====
-- The statements on a table keep the constraints on it.
use rust_generic_user_backen.Base.{
  true, not, ◌&&◌, refl, some, all-update, ◌==◌, is_some, find, arith, Option-cases, inl, inr,
  str_eq,
}
use rust_generic_user_backen.Db.Schema.{
  PermissionRow, UserRow, OauthIdentityRow, RefreshTokenRow, UserPermissionRow,
}
use rust_generic_user_backen.Db.Users.{
  update_role, update_active, update_email_verified, update_password,
}
use rust_generic_user_backen.Db.OauthIdentities.{is_identity, upsert_identity}
use rust_generic_user_backen.Db.RefreshTokens.{
  has_hash, insert_refresh_token, update_revoked, update_all_revoked,
}
use rust_generic_user_backen.Db.OneTimeTokens.{
  insert_verification, insert_reset, use_verification, use_reset,
}
use rust_generic_user_backen.Db.Permissions.{upsert_permission}
use rust_generic_user_backen.Db.Program.{
  UsersKeep, IdentitiesKeep, RefreshTokensKeep, VerificationsKeep, ResetsKeep, OverridesKeep,
}
use rust_generic_user_backen.Db.Consistent.{
  has_user, user_keys, token_hashes, verification_hashes, reset_hashes, identity_subjects,
  user_overrides, sessions, verifications, resets, identities, overrides, Holds,
}
use rust_generic_user_backen.Db.Consistent.Keys.{
  insert_user-UserKeys, update-UserKeys, insert_refresh_token-key, update-token_key,
  insert_token-key, use_token-key, upsert_identity-key, upsert_permission-key,
}
use rust_generic_user_backen.Db.Consistent.References.{insert_token-Refers, use_token-Refers}
use rust_generic_user_backen.Env.{Env}

module _ (env : Env) where
  pub user_keys-UsersKeep : UsersKeep env (Holds env user_keys)
  unfolding update_role update_active update_email_verified update_password
  user_keys-UsersKeep = record {
    insert_user_keeps = λ new role_id. record {
      at = λ now fresh d h. insert_user-UserKeys env new role_id now fresh d h;
    };
    update_role_keeps = λ id role_id. record {
      at = λ now fresh d h. ground (
        arith,
        h,
        update-UserKeys env (λ (u : UserRow). u.id == id)
            (λ u. record u { role_id = role_id; updated_at = now }) d.users (λ u. refl) (λ u. refl)
            h,
      );
    };
    update_active_keeps = λ id active. record {
      at = λ now fresh d h.
          update-UserKeys env (λ (u : UserRow). u.id == id)
            (λ u. record u { is_active = active; updated_at = now }) d.users (λ u. refl) (λ u. refl)
            h;
    };
    update_email_verified_keeps = λ id. record {
      at = λ now fresh d h.
          update-UserKeys env (λ (u : UserRow). u.id == id)
            (λ u. record u { email_verified = true; updated_at = now }) d.users (λ u. refl)
            (λ u. refl) h;
    };
    update_password_keeps = λ id phc. record {
      at = λ now fresh d h.
          update-UserKeys env (λ (u : UserRow). u.id == id)
            (λ u. record u { password_hash = some phc; updated_at = now }) d.users (λ u. refl)
            (λ u. refl) h;
    };
  }

  pub token_hashes-RefreshTokensKeep : RefreshTokensKeep (Holds env token_hashes)
  unfolding update_revoked update_all_revoked
  token_hashes-RefreshTokensKeep = record {
    insert_refresh_token_keeps = λ id hash expires_at agent. record {
      at = insert_refresh_token-key id hash expires_at agent;
    };
    update_revoked_keeps = λ hash. record {
      at = λ now fresh d h. update-token_key (has_hash hash) now d.refresh_tokens h;
    };
    update_all_revoked_keeps = λ id. record {
      at = λ now fresh d h.
          update-token_key (λ (t : RefreshTokenRow). t.user_id == id && not (is_some t.revoked_at))
            now d.refresh_tokens h;
    };
  }

  pub sessions-RefreshTokensKeep : RefreshTokensKeep (Holds env sessions)
  unfolding insert_refresh_token update_revoked update_all_revoked
  sessions-RefreshTokensKeep = record {
    insert_refresh_token_keeps =
        λ id hash expires_at agent. record { at = λ now fresh d h. ground (arith, h) };
    update_revoked_keeps = λ hash. record {
      at = λ now fresh d h.
          all-update (has_hash hash) (λ t. record t { revoked_at = some now })
            (λ (t : RefreshTokenRow). has_user d t.user_id) (λ t p q. q) d.refresh_tokens h;
    };
    update_all_revoked_keeps = λ id. record {
      at = λ now fresh d h.
          all-update (λ (t : RefreshTokenRow). t.user_id == id && not (is_some t.revoked_at))
            (λ t. record t { revoked_at = some now })
            (λ (t : RefreshTokenRow). has_user d t.user_id) (λ t p q. q) d.refresh_tokens h;
    };
  }

  pub verification_hashes-VerificationsKeep : VerificationsKeep (Holds env verification_hashes)
  unfolding insert_verification use_verification
  verification_hashes-VerificationsKeep = record {
    insert_verification_keeps = λ id hash expires_at. record {
      at = λ now fresh d h. insert_token-key id hash expires_at now fresh d.users _ h;
    };
    use_verification_keeps = λ hash. record { at = λ now fresh d h. use_token-key hash now _ h };
  }

  pub verifications-VerificationsKeep : VerificationsKeep (Holds env verifications)
  unfolding insert_verification use_verification
  verifications-VerificationsKeep = record {
    insert_verification_keeps = λ id hash expires_at. record {
      at = λ now fresh d h. insert_token-Refers id hash expires_at now fresh d _ h;
    };
    use_verification_keeps =
        λ hash. record { at = λ now fresh d h. use_token-Refers hash now d _ h };
  }

  pub reset_hashes-ResetsKeep : ResetsKeep (Holds env reset_hashes)
  unfolding insert_reset use_reset
  reset_hashes-ResetsKeep = record {
    insert_reset_keeps = λ id hash expires_at. record {
      at = λ now fresh d h. insert_token-key id hash expires_at now fresh d.users _ h;
    };
    use_reset_keeps = λ hash. record { at = λ now fresh d h. use_token-key hash now _ h };
  }

  pub resets-ResetsKeep : ResetsKeep (Holds env resets)
  unfolding insert_reset use_reset
  resets-ResetsKeep = record {
    insert_reset_keeps = λ id hash expires_at. record {
      at = λ now fresh d h. insert_token-Refers id hash expires_at now fresh d _ h;
    };
    use_reset_keeps = λ hash. record { at = λ now fresh d h. use_token-Refers hash now d _ h };
  }

  pub identities-IdentitiesKeep : IdentitiesKeep (Holds env identities)
  unfolding upsert_identity
  identities-IdentitiesKeep = record {
    upsert_identity_keeps = λ id provider subject email raw. record {
      at = λ now fresh d h. ground (
        arith,
        h,
        all-update (is_identity provider subject)
            (λ oi. record oi { email = email; raw_profile = raw })
            (λ (oi : OauthIdentityRow). has_user d oi.user_id) (λ oi p q. q) d.oauth_identities h,
      );
    };
  }

  pub overrides-OverridesKeep : OverridesKeep (Holds env overrides)
  unfolding upsert_permission
  overrides-OverridesKeep = record {
    upsert_permission_keeps = λ id name grant. record {
      at = λ now fresh d h.
          elim (Option-cases (find (λ (p : PermissionRow). str_eq p.name name) d.permissions)) [
            | inl e ↦ ground (arith, e, h)
            | inr (p, e) ↦ ground (
              arith,
              e,
              h,
              all-update (λ (up : UserPermissionRow). up.user_id == id && up.permission_id == p.id)
                  (λ up. record up { granted = grant })
                  (λ (up : UserPermissionRow). has_user d up.user_id) (λ up p q. q)
                  d.user_permissions h,
            )
          ];
    };
  }

  pub identity_subjects-IdentitiesKeep : IdentitiesKeep (Holds env identity_subjects)
  identity_subjects-IdentitiesKeep = record {
    upsert_identity_keeps = λ id provider subject email raw. record {
      at = upsert_identity-key id provider subject email raw;
    };
  }

  pub user_overrides-OverridesKeep : OverridesKeep (Holds env user_overrides)
  user_overrides-OverridesKeep = record {
    upsert_permission_keeps = λ id name grant. record { at = upsert_permission-key id name grant };
  }
