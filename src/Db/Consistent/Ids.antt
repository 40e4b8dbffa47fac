-- ===== src/Db/Consistent/Ids.antt =====
-- The ids of the rows, and the references to permissions, under the statements of the program.
use rust_generic_user_backen.Base.{
  String, Bool, true, ◌&&◌, not, ◌≡◌, refl, ◌∙◌, some, List, [], ◌∷◌, ◌==◌, str_eq, any, find,
  update, apart, apart-update, all-update, any-or, is_some, arith, Bool-cases, Option-cases, inl,
  inr,
}
use rust_generic_user_backen.Core.User.{Uuid, OffsetDateTime}
use rust_generic_user_backen.Db.Schema.{
  PermissionRow, UserRow, RefreshTokenRow, OneTimeTokenRow, UserPermissionRow,
}
use rust_generic_user_backen.Db.OauthIdentities.{is_identity, upsert_identity}
use rust_generic_user_backen.Db.RefreshTokens.{
  has_hash, insert_refresh_token, update_revoked, update_all_revoked,
}
use rust_generic_user_backen.Db.OneTimeTokens.{
  insert_token, use_token, is_live, insert_verification, insert_reset, use_verification, use_reset,
}
use rust_generic_user_backen.Db.Permissions.{upsert_permission}
use rust_generic_user_backen.Db.Program.{
  IdentitiesKeep, RefreshTokensKeep, VerificationsKeep, ResetsKeep, OverridesKeep,
}
use rust_generic_user_backen.Db.Consistent.{
  same_session_id, same_token_id, same_identity_id, has_permission_id, session_ids,
  verification_ids, reset_ids, identity_ids, override_permissions, Holds,
}
use rust_generic_user_backen.Env.{Env}

insert_token-id :
    (user_id : Uuid) (hash : String) (expires_at now : OffsetDateTime) (fresh : Uuid)
    (users : List UserRow) (rows : List OneTimeTokenRow)
    → apart same_token_id rows ≡ true
    → apart same_token_id (insert_token user_id hash expires_at now fresh users rows).1 ≡ true
unfolding insert_token
insert_token-id user_id hash expires_at now fresh users rows h = ground (arith, h)

use_token-id :
    (hash : String) (now : OffsetDateTime) (rows : List OneTimeTokenRow)
    → apart same_token_id rows ≡ true
    → apart same_token_id (use_token hash now rows).1 ≡ true
unfolding use_token
use_token-id hash now rows h =
    apart-update (is_live hash now) (λ t. record t { used_at = some now }) same_token_id
      (λ s t. refl) (λ s t. refl) rows
    ∙ h

revoking-id :
    (p : RefreshTokenRow → Bool) (now : OffsetDateTime) (rows : List RefreshTokenRow)
    → apart same_session_id rows ≡ true
    → apart same_session_id (update p (λ t. record t { revoked_at = some now }) rows) ≡ true
revoking-id p now rows h =
    apart-update p (λ t. record t { revoked_at = some now }) same_session_id (λ s t. refl)
      (λ s t. refl) rows
    ∙ h

-- A permission that is found is listed under its id.
found-listed :
    (test : PermissionRow → Bool) (rows : List PermissionRow) {p : PermissionRow}
    → find test rows ≡ some p
    → any (λ (q : PermissionRow). q.id == p.id) rows ≡ true
found-listed test [] h = cc
found-listed test (q ∷ rows) {p} h = elim (Bool-cases (test q)) [
  | inl t ↦ ground (arith, t)
  | inr f ↦ ground (arith, f, found-listed test rows {p = p})
]

module _ (env : Env) where
  pub session_ids-RefreshTokensKeep : RefreshTokensKeep (Holds env session_ids)
  unfolding insert_refresh_token update_revoked update_all_revoked
  session_ids-RefreshTokensKeep = record {
    insert_refresh_token_keeps = λ id hash expires_at agent. record {
      at = λ now fresh d h. ground (
        arith,
        h,
        any-or (λ (t : RefreshTokenRow). t.id == fresh) (has_hash hash) d.refresh_tokens,
      );
    };
    update_revoked_keeps =
        λ hash. record { at = λ now fresh d h. revoking-id (has_hash hash) now d.refresh_tokens h };
    update_all_revoked_keeps = λ id. record {
      at = λ now fresh d h.
          revoking-id (λ (t : RefreshTokenRow). t.user_id == id && not (is_some t.revoked_at)) now
            d.refresh_tokens h;
    };
  }

  pub verification_ids-VerificationsKeep : VerificationsKeep (Holds env verification_ids)
  unfolding insert_verification use_verification
  verification_ids-VerificationsKeep = record {
    insert_verification_keeps = λ id hash expires_at. record {
      at = λ now fresh d h. insert_token-id id hash expires_at now fresh d.users _ h;
    };
    use_verification_keeps = λ hash. record { at = λ now fresh d h. use_token-id hash now _ h };
  }

  pub reset_ids-ResetsKeep : ResetsKeep (Holds env reset_ids)
  unfolding insert_reset use_reset
  reset_ids-ResetsKeep = record {
    insert_reset_keeps = λ id hash expires_at. record {
      at = λ now fresh d h. insert_token-id id hash expires_at now fresh d.users _ h;
    };
    use_reset_keeps = λ hash. record { at = λ now fresh d h. use_token-id hash now _ h };
  }

  pub identity_ids-IdentitiesKeep : IdentitiesKeep (Holds env identity_ids)
  unfolding upsert_identity
  identity_ids-IdentitiesKeep = record {
    upsert_identity_keeps = λ id provider subject email raw. record {
      at = λ now fresh d h. ground (
        arith,
        h,
        apart-update (is_identity provider subject)
            (λ oi. record oi { email = email; raw_profile = raw }) same_identity_id (λ a b. refl)
            (λ a b. refl) d.oauth_identities,
      );
    };
  }

  pub override_permissions-OverridesKeep : OverridesKeep (Holds env override_permissions)
  unfolding upsert_permission
  override_permissions-OverridesKeep = record {
    upsert_permission_keeps = λ id name grant. record {
      at = λ now fresh d h.
          elim (Option-cases (find (λ (p : PermissionRow). str_eq p.name name) d.permissions)) [
            | inl e ↦ ground (arith, e, h)
            | inr (p, e) ↦ ground (
              arith,
              e,
              h,
              found-listed (λ (p : PermissionRow). str_eq p.name name) d.permissions e,
              all-update (λ (up : UserPermissionRow). up.user_id == id && up.permission_id == p.id)
                  (λ up. record up { granted = grant })
                  (λ (up : UserPermissionRow). has_permission_id d up.permission_id) (λ up a b. b)
                  d.user_permissions h,
            )
          ];
    };
  }
