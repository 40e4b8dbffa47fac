-- ===== src/Db/Consistent/Keys.antt =====
-- The keys under the statements of the program.
use rust_generic_user_backen.Base.{
  ℕ, String, Bool, true, ◌&&◌, ◌≡◌, refl, ◌∙◌, Option, some, List, ◌==◌, str_eq, find, update,
  apart, apart-update, any-or, arith, Option-cases, inl, inr,
}
use rust_generic_user_backen.Core.User.{Uuid, OffsetDateTime}
use rust_generic_user_backen.Db.Schema.{
  PermissionRow, UserRow, RefreshTokenRow, OneTimeTokenRow, UserPermissionRow, Db,
}
use rust_generic_user_backen.Db.Users.{NewUser, same_email, insert_user}
use rust_generic_user_backen.Db.OauthIdentities.{is_identity, upsert_identity}
use rust_generic_user_backen.Db.RefreshTokens.{has_hash, insert_refresh_token}
use rust_generic_user_backen.Db.OneTimeTokens.{insert_token, use_token, is_live}
use rust_generic_user_backen.Db.Permissions.{upsert_permission}
use rust_generic_user_backen.Db.Consistent.{
  same_id, same_address, same_hash, same_token, same_identity, same_override,
}
use rust_generic_user_backen.Env.{Env}

-- What the keys of `users` need of the table.
abbrev pub UserKeys : Env → List UserRow → Type 0
UserKeys env users = (apart same_id users ≡ true) × (apart (same_address env) users ≡ true)

module _ (env : Env) where
  pub insert_user-UserKeys :
      (new : NewUser) (role_id : ℕ) (now : OffsetDateTime) (fresh : Uuid) (d : Db)
      → UserKeys env d.users
      → UserKeys env (insert_user env new role_id now fresh d).1.users
  unfolding insert_user
  insert_user-UserKeys new role_id now fresh d h = ground (
    arith,
    h,
    any-or (λ (u : UserRow). u.id == fresh) (λ u. same_email env u.email new.email) d.users,
  )

  pub update-UserKeys :
      (p : UserRow → Bool) (f : UserRow → UserRow) (users : List UserRow)
      → ((u : UserRow) → (f u).id ≡ u.id)
      → ((u : UserRow) → (f u).email ≡ u.email)
      → UserKeys env users
      → UserKeys env (update p f users)
  update-UserKeys p f users ids emails (h, k) = (
    apart-update p f same_id (λ u v. rw (ids u) refl) (λ u v. rw (ids v) refl) users ∙ h,
    apart-update p f (same_address env) (λ u v. rw (emails u) refl) (λ u v. rw (emails v) refl)
          users
        ∙ k,
  )

pub insert_refresh_token-key :
    (user_id : Uuid) (hash : String) (expires_at : OffsetDateTime) (agent : Option String)
    (now : OffsetDateTime) (fresh : Uuid) (d : Db)
    → apart same_hash d.refresh_tokens ≡ true
    → apart same_hash
        (insert_refresh_token user_id hash expires_at agent now fresh d).1.refresh_tokens
      ≡ true
unfolding insert_refresh_token
insert_refresh_token-key user_id hash expires_at agent now fresh d h =
    ground
      (arith, h, any-or (λ (t : RefreshTokenRow). t.id == fresh) (has_hash hash) d.refresh_tokens)

pub update-token_key :
    (p : RefreshTokenRow → Bool) (now : OffsetDateTime) (rows : List RefreshTokenRow)
    → apart same_hash rows ≡ true
    → apart same_hash (update p (λ t. record t { revoked_at = some now }) rows) ≡ true
update-token_key p now rows h =
    apart-update p (λ t. record t { revoked_at = some now }) same_hash (λ s t. refl) (λ s t. refl)
      rows
    ∙ h

pub insert_token-key :
    (user_id : Uuid) (hash : String) (expires_at now : OffsetDateTime) (fresh : Uuid)
    (users : List UserRow) (rows : List OneTimeTokenRow)
    → apart same_token rows ≡ true
    → apart same_token (insert_token user_id hash expires_at now fresh users rows).1 ≡ true
unfolding insert_token
insert_token-key user_id hash expires_at now fresh users rows h = ground (arith, h)

pub use_token-key :
    (hash : String) (now : OffsetDateTime) (rows : List OneTimeTokenRow)
    → apart same_token rows ≡ true
    → apart same_token (use_token hash now rows).1 ≡ true
unfolding use_token
use_token-key hash now rows h =
    apart-update (is_live hash now) (λ t. record t { used_at = some now }) same_token (λ s t. refl)
      (λ s t. refl) rows
    ∙ h

pub upsert_identity-key :
    (user_id : Uuid) (provider subject : String) (email : Option String) (raw : String)
    (now : OffsetDateTime) (fresh : Uuid) (d : Db)
    → apart same_identity d.oauth_identities ≡ true
    → apart same_identity
        (upsert_identity user_id provider subject email raw now fresh d).1.oauth_identities
      ≡ true
unfolding upsert_identity
upsert_identity-key user_id provider subject email raw now fresh d h = ground (
  arith,
  h,
  apart-update (is_identity provider subject) (λ oi. record oi { email = email; raw_profile = raw })
      same_identity (λ a b. refl) (λ a b. refl) d.oauth_identities,
)

pub upsert_permission-key :
    (user_id : Uuid) (name : String) (grant : Bool) (now : OffsetDateTime) (fresh : Uuid) (d : Db)
    → apart same_override d.user_permissions ≡ true
    → apart same_override (upsert_permission user_id name grant now fresh d).1.user_permissions
      ≡ true
unfolding upsert_permission
upsert_permission-key user_id name grant now fresh d h =
    elim (Option-cases (find (λ (p : PermissionRow). str_eq p.name name) d.permissions)) [
      | inl e ↦ ground (arith, e, h)
      | inr (p, e) ↦ ground (
        arith,
        e,
        h,
        apart-update (λ (up : UserPermissionRow). up.user_id == user_id && up.permission_id == p.id)
            (λ up. record up { granted = grant }) same_override (λ a b. refl) (λ a b. refl)
            d.user_permissions,
      )
    ]
