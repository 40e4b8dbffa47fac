-- ===== src/Db/OauthIdentities.antt =====
-- The functions of crates/db/src/users.rs on the table `oauth_identities`.
use mathlib.Core.Option
use rust_generic_user_backen.Base.{
  String, Bool, ◌&&◌, Option, none, some, ◌∷◌, ◌==◌, str_eq, find, any, update, if◌then◌else◌,
}
use rust_generic_user_backen.Base.Result.{ok, err}
use rust_generic_user_backen.Core.User.{Uuid, User}
use rust_generic_user_backen.Db.Schema.{
  UserRow, OauthIdentityRow, unique_violation, foreign_key_violation, DbError, sqlx, Statement,
}
use rust_generic_user_backen.Db.Users.{select_user, user_of}
use rust_generic_user_backen.Env.{Env}
use rust_generic_user_backen.App.{App, query}

abbrev pub is_identity : String → String → OauthIdentityRow → Bool
is_identity provider subject oi = str_eq oi.provider provider && str_eq oi.subject subject

-- `INSERT INTO oauth_identities ... ON CONFLICT (provider, subject) DO UPDATE`
unfoldable pub upsert_identity : Uuid → String → String → Option String → String → Statement Unit
upsert_identity user_id provider subject email raw now fresh d =
    if any (is_identity provider subject) d.oauth_identities
    then (
      ok tt,
      record d {
        oauth_identities =
            update (is_identity provider subject)
              (λ oi. record oi { email = email; raw_profile = raw }) d.oauth_identities;
      },
    )
    else if any (λ (oi : OauthIdentityRow). oi.id == fresh) d.oauth_identities
    then (err (sqlx unique_violation), d)
    else if any (λ (u : UserRow). u.id == user_id) d.users
    then (
      ok tt,
      record d {
        oauth_identities =
            record {
              id = fresh;
              user_id = user_id;
              provider = provider;
              subject = subject;
              email = email;
              raw_profile = raw;
              created_at = now;
            }
            ∷ d.oauth_identities;
      },
    )
    else (err (sqlx foreign_key_violation), d)

-- The join through `users` and `roles` of the identity with this provider and subject, of which
-- there is one at most.
unfoldable pub select_by_oauth : String → String → Statement (Option User)
select_by_oauth provider subject now fresh d =
    elim (find (is_identity provider subject) d.oauth_identities) [
      | none ↦ (ok none, d)
      | some oi ↦ (ok (Option.map user_of (select_user (λ u. u.id == oi.user_id) d)), d)
    ]

module _ (env : Env) where
  unfoldable pub upsert_oauth_identity :
      Uuid → String → String → Option String → String → App DbError Unit
  upsert_oauth_identity user_id provider subject email raw =
      query env (upsert_identity user_id provider subject email raw)

  unfoldable pub find_user_by_oauth : String → String → App DbError (Option User)
  find_user_by_oauth provider subject = query env (select_by_oauth provider subject)
