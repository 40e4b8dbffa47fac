-- ===== src/App/Forward.antt =====
-- What an action comes to when its first effect is known.
use rust_generic_user_backen.Base.{◌+◌, ◌≡◌, refl}
use rust_generic_user_backen.Base.Result.{Result, ok, err}
use rust_generic_user_backen.Core.User.{Uuid, OffsetDateTime}
use rust_generic_user_backen.Db.Schema.{DbError, Db, Statement}
use rust_generic_user_backen.Env.{Env, clean}
use rust_generic_user_backen.App.{from_db_error, World, App, map_err, settle, query, db, ◌>>=◌}

-- The world after a statement that reads and is answered: the tables are those that the other
-- requests have left.
abbrev pub seen : Env → World → World
seen env w = record w { db = env.others w.effects w.db; effects = w.effects + 1 }

module _ {E A B : Type 0} where
  pub bind-ok :
      (m : App E A) (f : A → App E B) (w : World) {a : A} {v : World}
      → m w ≡ (ok a, v)
      → (m >>= f) w ≡ f a v
  unfolding ◌>>=◌
  bind-ok m f w e = rw e refl

  pub bind-err :
      (m : App E A) (f : A → App E B) (w : World) {e : E} {v : World}
      → m w ≡ (err e, v)
      → (m >>= f) w ≡ (err e, v)
  unfolding ◌>>=◌
  bind-err m f w e = rw e refl

module _ (env : Env) {A : Type 0} where
  pub query-clean :
      (stmt : Statement A) (w : World) {a : A} {d : Db}
      → env.fault w.effects ≡ clean
      → stmt (env.db_now w.effects) (env.uuid w.effects) (env.others w.effects w.db) ≡ (ok a, d)
      → db env (query env stmt) w ≡ (ok a, record w { db = d; effects = w.effects + 1 })
  unfolding db map_err query settle
  query-clean stmt w answered e = rw (answered, e) refl

  pub read-clean :
      (stmt : Statement A) (g : Db → A)
      → ((now : OffsetDateTime) (fresh : Uuid) (d : Db) → stmt now fresh d ≡ (ok (g d), d))
      → (w : World) → env.fault w.effects ≡ clean
      → db env (query env stmt) w ≡ (ok (g (env.others w.effects w.db)), seen env w)
  read-clean stmt g reads w answered = query-clean stmt w answered (reads _ _ _)

module _ (env : Env) {A : Type 0} where
  -- A statement that is answered gives its own answer.
  pub query-answered :
      (stmt : Statement A) (w : World) {r : Result DbError A} {d : Db}
      → env.fault w.effects ≡ clean
      → stmt (env.db_now w.effects) (env.uuid w.effects) (env.others w.effects w.db) ≡ (r, d)
      → query env stmt w ≡ (r, record w { db = d; effects = w.effects + 1 })
  unfolding query settle
  query-answered stmt w answered e = rw (answered, e) refl

  pub db-err :
      (m : App DbError A) (w : World) {e : DbError} {v : World}
      → m w ≡ (err e, v)
      → db env m w ≡ (err (from_db_error env e), v)
  unfolding db map_err
  db-err m w same = rw same refl
