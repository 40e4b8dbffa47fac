-- ===== src/Db/OneTimeTokens.antt =====
-- The functions of crates/db/src/users.rs on the tables `email_verification_tokens` and
-- `password_reset_tokens`. The statements on the two are the same but for the table.
pub mod Used
use mathlib.Core.Option
use rust_generic_user_backen.Base.{
  String, Bool, not, ◌&&◌, Option, none, some, List, ◌∷◌, ◌==◌, str_eq, is_some, find, any, update,
  if◌then◌else◌,
}
use rust_generic_user_backen.Base.Int.{ltb_ℤ}
use rust_generic_user_backen.Base.Result.{Result, ok, err}
use rust_generic_user_backen.Core.User.{Uuid, OffsetDateTime}
use rust_generic_user_backen.Db.Schema.{
  UserRow, OneTimeTokenRow, unique_violation, foreign_key_violation, DbError, sqlx, Statement,
}
use rust_generic_user_backen.Env.{Env}
use rust_generic_user_backen.App.{App, query}

-- `INSERT INTO ... ON CONFLICT (token_hash) DO NOTHING`, on the rows of one of the tables
unfoldable pub insert_token :
    Uuid
    → String
    → OffsetDateTime
    → OffsetDateTime
    → Uuid
    → List UserRow
    → List OneTimeTokenRow
    → Result DbError Unit × List OneTimeTokenRow
insert_token user_id token_hash expires_at now fresh users rows =
    if any (λ (t : OneTimeTokenRow). str_eq t.token_hash token_hash) rows
    then (ok tt, rows)
    else if any (λ (t : OneTimeTokenRow). t.id == fresh) rows
    then (err (sqlx unique_violation), rows)
    else if any (λ (u : UserRow). u.id == user_id) users
    then (
      ok tt,
      record {
        id = fresh;
        user_id = user_id;
        token_hash = token_hash;
        expires_at = expires_at;
        used_at = none;
        created_at = now;
      }
          ∷ rows,
    )
    else (err (sqlx foreign_key_violation), rows)

-- `token_hash = $1 AND used_at IS NULL AND expires_at > now()`
abbrev pub is_live : String → OffsetDateTime → OneTimeTokenRow → Bool
is_live token_hash now t =
    str_eq t.token_hash token_hash && not (is_some t.used_at) && ltb_ℤ now t.expires_at

-- `UPDATE ... SET used_at = now() WHERE ... RETURNING user_id`
unfoldable pub use_token :
    String → OffsetDateTime → List OneTimeTokenRow → Option Uuid × List OneTimeTokenRow
use_token token_hash now rows = (
  Option.map (λ t. t.user_id) (find (is_live token_hash now) rows),
  update (is_live token_hash now) (λ t. record t { used_at = some now }) rows,
)

unfoldable pub insert_verification : Uuid → String → OffsetDateTime → Statement Unit
unfolding insert_token
insert_verification user_id token_hash expires_at now fresh d =
    let (r, rows) =
      insert_token user_id token_hash expires_at now fresh d.users d.email_verification_tokens in
    (r, record d { email_verification_tokens = rows })

unfoldable pub insert_reset : Uuid → String → OffsetDateTime → Statement Unit
unfolding insert_token
insert_reset user_id token_hash expires_at now fresh d =
    let (r, rows) =
      insert_token user_id token_hash expires_at now fresh d.users d.password_reset_tokens in
    (r, record d { password_reset_tokens = rows })

unfoldable pub use_verification : String → Statement (Option Uuid)
unfolding use_token
use_verification token_hash now fresh d =
    let (user_id, rows) = use_token token_hash now d.email_verification_tokens in
    (ok user_id, record d { email_verification_tokens = rows })

unfoldable pub use_reset : String → Statement (Option Uuid)
unfolding use_token
use_reset token_hash now fresh d =
    let (user_id, rows) = use_token token_hash now d.password_reset_tokens in
    (ok user_id, record d { password_reset_tokens = rows })

module _ (env : Env) where
  unfoldable pub store_email_verification_token : Uuid → String → OffsetDateTime → App DbError Unit
  store_email_verification_token user_id token_hash expires_at =
      query env (insert_verification user_id token_hash expires_at)

  unfoldable pub consume_email_verification_token : String → App DbError (Option Uuid)
  consume_email_verification_token token_hash = query env (use_verification token_hash)

  unfoldable pub store_password_reset_token : Uuid → String → OffsetDateTime → App DbError Unit
  store_password_reset_token user_id token_hash expires_at =
      query env (insert_reset user_id token_hash expires_at)

  unfoldable pub consume_password_reset_token : String → App DbError (Option Uuid)
  consume_password_reset_token token_hash = query env (use_reset token_hash)
