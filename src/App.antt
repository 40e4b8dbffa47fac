-- ===== src/App.antt =====
-- An asynchronous function of the program, as an action on the world: the database, the number of
-- effects made so far, and the e-mail tasks that were spawned. Each effect looks up what the
-- environment answers at its number. Before a statement other requests may have changed the
-- tables; a statement may fail before it takes effect, or its reply may be lost after.
pub mod Inversion
pub mod Keeps
pub mod Quiet
pub mod Yields
pub mod Forward
use rust_generic_user_backen.Base.{
  ℕ, ◌+◌, String, Option, none, some, List, [], ◌∷◌, ◌++◌, Bool, if◌then◌else◌,
}
use rust_generic_user_backen.Base.Result
use rust_generic_user_backen.Base.Result.{Result, ok, err}
use rust_generic_user_backen.Base.Text.{◌<>◌}
use rust_generic_user_backen.Core.User.{Uuid, OffsetDateTime}
use rust_generic_user_backen.Core.Error.{AppError, not_found, database}
use rust_generic_user_backen.Db.Schema.{Db, row_not_found, DbError, sqlx, migrate, Statement}
use rust_generic_user_backen.Env.{Env, Fault, clean, lost_request, lost_reply}

-- An e-mail that a background task was spawned to send.
pub record Mail : Type 0 where
  pub to : String
  pub subject : String
  pub body : String

pub record World : Type 0 where
  pub db : Db
  pub effects : ℕ
  pub spawned : List Mail

abbrev pub App : Type 0 → Type 0 → Type 0
App E A = World → Result E A × World

module _ {E A : Type 0} where
  unfoldable pub pure : A → App E A
  pure a w = (ok a, w)

  unfoldable pub raise : E → App E A
  raise e w = (err e, w)

  unfoldable pub lift : Result E A → App E A
  lift r w = (r, w)

  -- `ok_or_else(|| e)?`
  unfoldable pub ok_or : Option A → E → App E A
  ok_or none e w = (err e, w)
  ok_or (some a) e w = (ok a, w)

-- `if t { return Err(e); }`
unfoldable pub raise_if : {E : Type 0} → Bool → E → App E Unit
raise_if t e w = (if t then err e else ok tt, w)

module _ {E F A : Type 0} where
  -- `m.await` whose outcome is matched or dropped: the caller goes on after an error.
  unfoldable pub attempt : App E A → App F (Result E A)
  attempt m w = let (r, w') = m w in (ok r, w')

  unfoldable pub map_err : (E → F) → App E A → App F A
  map_err f m w = let (r, w') = m w in (Result.map_err f r, w')

module _ {E A B : Type 0} where
  abbrev pub continue : Result E A → (A → App E B) → App E B
  continue (ok a) f w = f a w
  continue (err e) f w = (err e, w)

  infixl 10 ◌>>=◌ ◌>>◌
  unfoldable pub ◌>>=◌ : App E A → (A → App E B) → App E B
  unfolding pure raise lift ok_or raise_if attempt
  ◌>>=◌ m f w = let (r, w') = m w in continue r f w'

  abbrev pub ◌>>◌ : App E A → App E B → App E B
  m >> n = m >>= λ _. n

-- The answer that reaches the program, and the tables, once a statement was sent to tables `before`
-- and made of them `after`.
unfoldable pub settle : {A : Type 0} → Fault → Result DbError A → Db → Db → Result DbError A × Db
settle clean r before after = (r, after)
settle (lost_request e) r before after = (err (sqlx e), before)
settle (lost_reply e) r before after = (err (sqlx e), after)

module _ (env : Env) where
  unfoldable pub query : {A : Type 0} → Statement A → App DbError A
  unfolding settle
  query stmt w =
      let before = env.others w.effects w.db in
      let (r, after) = stmt (env.db_now w.effects) (env.uuid w.effects) before in
      let (answer, db) = settle (env.fault w.effects) r before after in
      (answer, record w { db = db; effects = w.effects + 1 })

  module _ {E : Type 0} where
    -- An effect that only draws from the environment.
    unfoldable pub draw : {A : Type 0} → (ℕ → A) → App E A
    draw source w = (ok (source w.effects), record w { effects = w.effects + 1 })

    unfoldable pub now_utc : App E OffsetDateTime
    unfolding draw
    now_utc = draw env.app_now

    unfoldable pub new_v4 : App E Uuid
    unfolding draw
    new_v4 = draw env.uuid

    unfoldable pub fill_bytes : App E (List ℕ)
    unfolding draw
    fill_bytes = draw env.random_bytes

    unfoldable pub generate_salt : App E String
    unfolding draw
    generate_salt = draw env.salt

  -- `From<DbError> for AppError`, and the printing of a `DbError`.
  unfoldable pub db_to_string : DbError → String
  db_to_string (sqlx e) = "sqlx: " <> env.sqlx_display e
  db_to_string (migrate m) = "migrate: " <> m

  unfoldable pub from_db_error : DbError → AppError
  unfolding db_to_string
  from_db_error (sqlx row_not_found) = not_found
  from_db_error e = database (db_to_string e)

  unfoldable pub db : {A : Type 0} → App DbError A → App AppError A
  unfolding map_err
  db = map_err from_db_error

-- `tokio::spawn` of a task that sends a mail and logs a failure.
unfoldable pub spawn : {E : Type 0} → Mail → App E Unit
spawn mail w = (ok tt, record w { spawned = w.spawned ++ mail ∷ [] })
