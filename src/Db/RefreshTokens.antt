-- ===== src/Db/RefreshTokens.antt =====
-- The functions of crates/db/src/users.rs on the table `refresh_tokens`.
pub mod Spent
pub mod Store
pub mod Refine
use mathlib.Core.Option
use rust_generic_user_backen.Base.{
  String, Bool, not, ◌&&◌, ◌||◌, Option, none, some, ◌∷◌, ◌==◌, str_eq, is_some, find, any, update,
  if◌then◌else◌,
}
use rust_generic_user_backen.Base.Result.{ok, err}
use rust_generic_user_backen.Core.User.{Uuid, OffsetDateTime}
use rust_generic_user_backen.Db.Schema.{
  UserRow, RefreshTokenRow, unique_violation, foreign_key_violation, DbError, sqlx, Statement,
}
use rust_generic_user_backen.Env.{Env}
use rust_generic_user_backen.App.{App, query}

abbrev pub has_hash : String → RefreshTokenRow → Bool
has_hash hash t = str_eq t.token_hash hash

-- `INSERT INTO refresh_tokens ... RETURNING id`: the two unique columns and the key of the user.
unfoldable pub insert_refresh_token :
    Uuid → String → OffsetDateTime → Option String → Statement Uuid
insert_refresh_token user_id token_hash expires_at user_agent now fresh d =
    if any (λ (t : RefreshTokenRow). t.id == fresh || has_hash token_hash t) d.refresh_tokens
    then (err (sqlx unique_violation), d)
    else if any (λ (u : UserRow). u.id == user_id) d.users
    then (
      ok fresh,
      record d {
        refresh_tokens =
            record {
              id = fresh;
              user_id = user_id;
              token_hash = token_hash;
              issued_at = now;
              expires_at = expires_at;
              revoked_at = none;
              user_agent = user_agent;
            }
            ∷ d.refresh_tokens;
      },
    )
    else (err (sqlx foreign_key_violation), d)

unfoldable pub update_revoked : String → Statement Unit
update_revoked token_hash now fresh d = (
  ok tt,
  record d {
    refresh_tokens =
        update (has_hash token_hash) (λ t. record t { revoked_at = some now }) d.refresh_tokens;
  },
)

unfoldable pub select_refresh_token :
    String → Statement (Option (Uuid × OffsetDateTime × Option OffsetDateTime))
select_refresh_token token_hash now fresh d = (
  ok (
      Option.map (λ t. (t.user_id, t.expires_at, t.revoked_at))
        (find (has_hash token_hash) d.refresh_tokens)),
  d,
)

unfoldable pub update_all_revoked : Uuid → Statement Unit
update_all_revoked user_id now fresh d = (
  ok tt,
  record d {
    refresh_tokens =
        update (λ (t : RefreshTokenRow). t.user_id == user_id && not (is_some t.revoked_at))
          (λ t. record t { revoked_at = some now }) d.refresh_tokens;
  },
)

module _ (env : Env) where
  unfoldable pub store_refresh_token :
      Uuid → String → OffsetDateTime → Option String → App DbError Uuid
  store_refresh_token user_id token_hash expires_at user_agent =
      query env (insert_refresh_token user_id token_hash expires_at user_agent)

  unfoldable pub revoke_refresh_token : String → App DbError Unit
  revoke_refresh_token token_hash = query env (update_revoked token_hash)

  unfoldable pub lookup_refresh_token :
      String → App DbError (Option (Uuid × OffsetDateTime × Option OffsetDateTime))
  lookup_refresh_token token_hash = query env (select_refresh_token token_hash)

  unfoldable pub revoke_all_refresh_tokens : Uuid → App DbError Unit
  revoke_all_refresh_tokens user_id = query env (update_all_revoked user_id)
