-- ===== src/Db/Frames.antt =====
-- Which table a statement can change, and the invariants that follow: a property that does not
-- look at that table is kept.
use rust_generic_user_backen.Base.{ℕ, String, Bool, Option, ◌≡◌, refl, sym, subst, arith}
use rust_generic_user_backen.Base.Int.{ℤ, pos, negsuc}
use rust_generic_user_backen.Core.Role.{Role}
use rust_generic_user_backen.Core.User.{Uuid, OffsetDateTime}
use rust_generic_user_backen.Db.Schema.{Db, Statement}
use rust_generic_user_backen.Db.Users.{
  NewUser, select_role_id, update_role, update_active, update_email_verified, update_password,
  select_page, insert_user, select_by_email, select_by_id,
}
use rust_generic_user_backen.Db.Permissions.{select_permissions, upsert_permission}
use rust_generic_user_backen.Db.OauthIdentities.{upsert_identity, select_by_oauth}
use rust_generic_user_backen.Db.RefreshTokens.{
  insert_refresh_token, update_revoked, select_refresh_token, update_all_revoked,
}
use rust_generic_user_backen.Db.OneTimeTokens.{
  insert_verification, insert_reset, use_verification, use_reset,
}
use rust_generic_user_backen.Env.{Env}
use rust_generic_user_backen.App.Keeps.{KeepsStatement}

-- The tables that some statement changes; `nothing` is for the statements that only read.
pub data Table : Type 0 where
  nothing users identities refresh_tokens verifications resets overrides : Table

-- The tables of the first database, with one table taken from the second.
abbrev pub restore : Table → Db → Db → Db
restore nothing r d = r
restore users r d = record r { users = d.users }
restore identities r d = record r { oauth_identities = d.oauth_identities }
restore refresh_tokens r d = record r { refresh_tokens = d.refresh_tokens }
restore verifications r d = record r { email_verification_tokens = d.email_verification_tokens }
restore resets r d = record r { password_reset_tokens = d.password_reset_tokens }
restore overrides r d = record r { user_permissions = d.user_permissions }

-- With that one table put back, nothing has changed.
pub record Touches {A : Type 0} (t : Table) (stmt : Statement A) : Type 0 where
  pub same : (now : OffsetDateTime) (fresh : Uuid) (d : Db) → restore t (stmt now fresh d).1 d ≡ d

-- A property that does not look at the table is kept.
pub KeepsStatement-of_Touches {ℓ} :
    {A : Type 0} (P : Db → Type ℓ) (t : Table) (stmt : Statement A)
    → ((r d : Db) → P (restore t r d) → P r)
    → Touches t stmt
    → KeepsStatement P stmt
KeepsStatement-of_Touches P t stmt blind k = record {
  at = λ now fresh d h. blind _ d (subst P (sym (k.same now fresh d)) h);
}

pub select_role_id-Touches : (role : Role) → Touches nothing (select_role_id role)
unfolding select_role_id
select_role_id-Touches role = record { same = λ now fresh d. ground arith }

pub select_by_id-Touches : (id : Uuid) → Touches nothing (select_by_id id)
unfolding select_by_id
select_by_id-Touches id = record { same = λ now fresh d. ground arith }

pub select_page-Touches : (limit offset : ℤ) → Touches nothing (select_page limit offset)
unfolding select_page
select_page-Touches limit (negsuc m) = record { same = λ now fresh d. refl }
select_page-Touches (negsuc n) (pos m) = record { same = λ now fresh d. refl }
select_page-Touches (pos n) (pos m) = record { same = λ now fresh d. refl }

pub select_permissions-Touches : (id : Uuid) → Touches nothing (select_permissions id)
unfolding select_permissions
select_permissions-Touches id = record { same = λ now fresh d. ground arith }

pub select_by_oauth-Touches :
    (provider subject : String) → Touches nothing (select_by_oauth provider subject)
unfolding select_by_oauth
select_by_oauth-Touches provider subject = record { same = λ now fresh d. ground arith }

pub select_refresh_token-Touches : (hash : String) → Touches nothing (select_refresh_token hash)
unfolding select_refresh_token
select_refresh_token-Touches hash = record { same = λ now fresh d. ground arith }

pub update_role-Touches : (id : Uuid) (role_id : ℕ) → Touches users (update_role id role_id)
unfolding update_role
update_role-Touches id role_id = record { same = λ now fresh d. ground arith }

pub update_active-Touches : (id : Uuid) (active : Bool) → Touches users (update_active id active)
unfolding update_active
update_active-Touches id active = record { same = λ now fresh d. ground arith }

pub update_email_verified-Touches : (id : Uuid) → Touches users (update_email_verified id)
unfolding update_email_verified
update_email_verified-Touches id = record { same = λ now fresh d. ground arith }

pub update_password-Touches : (id : Uuid) (phc : String) → Touches users (update_password id phc)
unfolding update_password
update_password-Touches id phc = record { same = λ now fresh d. ground arith }

pub upsert_permission-Touches :
    (id : Uuid) (name : String) (grant : Bool) → Touches overrides (upsert_permission id name grant)
unfolding upsert_permission
upsert_permission-Touches id name grant = record { same = λ now fresh d. ground arith }

pub upsert_identity-Touches :
    (id : Uuid) (provider subject : String) (email : Option String) (raw : String)
    → Touches identities (upsert_identity id provider subject email raw)
unfolding upsert_identity
upsert_identity-Touches id provider subject email raw = record {
  same = λ now fresh d. ground arith;
}

pub insert_refresh_token-Touches :
    (id : Uuid) (hash : String) (expires_at : OffsetDateTime) (agent : Option String)
    → Touches refresh_tokens (insert_refresh_token id hash expires_at agent)
unfolding insert_refresh_token
insert_refresh_token-Touches id hash expires_at agent = record {
  same = λ now fresh d. ground arith;
}

pub update_revoked-Touches : (hash : String) → Touches refresh_tokens (update_revoked hash)
unfolding update_revoked
update_revoked-Touches hash = record { same = λ now fresh d. ground arith }

pub update_all_revoked-Touches : (id : Uuid) → Touches refresh_tokens (update_all_revoked id)
unfolding update_all_revoked
update_all_revoked-Touches id = record { same = λ now fresh d. ground arith }

pub insert_verification-Touches :
    (id : Uuid) (hash : String) (expires_at : OffsetDateTime)
    → Touches verifications (insert_verification id hash expires_at)
unfolding insert_verification
insert_verification-Touches id hash expires_at = record { same = λ now fresh d. ground arith }

pub use_verification-Touches : (hash : String) → Touches verifications (use_verification hash)
unfolding use_verification
use_verification-Touches hash = record { same = λ now fresh d. ground arith }

pub insert_reset-Touches :
    (id : Uuid) (hash : String) (expires_at : OffsetDateTime)
    → Touches resets (insert_reset id hash expires_at)
unfolding insert_reset
insert_reset-Touches id hash expires_at = record { same = λ now fresh d. ground arith }

pub use_reset-Touches : (hash : String) → Touches resets (use_reset hash)
unfolding use_reset
use_reset-Touches hash = record { same = λ now fresh d. ground arith }

module _ (env : Env) where
  pub select_by_email-Touches : (email : String) → Touches nothing (select_by_email env email)
  unfolding select_by_email
  select_by_email-Touches email = record { same = λ now fresh d. refl }

  pub insert_user-Touches :
      (new : NewUser) (role_id : ℕ) → Touches users (insert_user env new role_id)
  unfolding insert_user
  insert_user-Touches new role_id = record { same = λ now fresh d. ground arith }

pub ruleset touches = (
  select_role_id-Touches, select_by_id-Touches, select_page-Touches, select_permissions-Touches,
  select_by_oauth-Touches, select_refresh_token-Touches, update_role-Touches, update_active-Touches,
  update_email_verified-Touches, update_password-Touches, upsert_permission-Touches,
  upsert_identity-Touches, insert_refresh_token-Touches, update_revoked-Touches,
  update_all_revoked-Touches, insert_verification-Touches, use_verification-Touches,
  insert_reset-Touches, use_reset-Touches, select_by_email-Touches, insert_user-Touches,
)
