-- ===== src/App/Quiet.antt =====
-- Actions that spawn no e-mail task, whether they succeed or fail: one rule for each way to build
-- them.
use rust_generic_user_backen.Base.{ℕ, ◌≡◌, refl, ◌∙◌, Bool, true, false, if◌then◌else◌}
use rust_generic_user_backen.Base.Result.{Result, ok, err}
use rust_generic_user_backen.Db.Schema.{DbError, Statement}
use rust_generic_user_backen.Env.{Env}
use rust_generic_user_backen.App.{
  World, App, pure, lift, map_err, query, draw, db, continue, now_utc, new_v4, ◌>>=◌,
}

pub record Quiet {E A : Type 0} (m : App E A) : Type 0 where
  pub at : (w : World) → (m w).1.spawned ≡ w.spawned

module _ {E A : Type 0} where
  pub Quiet-pure : (a : A) → Quiet (pure {E = E} a)
  unfolding pure
  Quiet-pure a = record { at = λ w. refl }

  pub Quiet-lift : (r : Result E A) → Quiet (lift r)
  unfolding lift
  Quiet-lift r = record { at = λ w. refl }

  pub Quiet-if : (b : Bool) (m n : App E A) → Quiet m → Quiet n → Quiet (if b then m else n)
  Quiet-if true m n qm qn = qm
  Quiet-if false m n qm qn = qn

  pub Quiet-draw : (env : Env) (source : ℕ → A) → Quiet (draw env {E = E} source)
  unfolding draw
  Quiet-draw env source = record { at = λ w. refl }

module _ {E F A : Type 0} where
  pub Quiet-map_err : (f : E → F) (m : App E A) → Quiet m → Quiet (map_err f m)
  unfolding map_err
  Quiet-map_err f m q = record { at = q.at }

module _ {E A B : Type 0} where
  Quiet-continue :
      (r : Result E A) (f : A → App E B) (w : World)
      → ((a : A) → Quiet (f a))
      → (continue r f w).1.spawned ≡ w.spawned
  Quiet-continue (ok a) f w q = (q a).at w
  Quiet-continue (err e) f w q = refl

  pub Quiet-bind :
      (m : App E A) (f : A → App E B) → Quiet m → ((a : A) → Quiet (f a)) → Quiet (m >>= f)
  unfolding ◌>>=◌
  Quiet-bind m f qm qf = record { at = λ w. Quiet-continue (m w).0 f (m w).1 qf ∙ qm.at w }

module _ {A : Type 0} (env : Env) where
  pub Quiet-query : (stmt : Statement A) → Quiet (query env stmt)
  unfolding query
  Quiet-query stmt = record { at = λ w. refl }

  pub Quiet-db : (m : App DbError A) → Quiet m → Quiet (db env m)
  unfolding db
  Quiet-db m q = Quiet-map_err _ m q

module _ {E : Type 0} (env : Env) where
  pub Quiet-now_utc : Quiet (now_utc env {E = E})
  unfolding now_utc
  Quiet-now_utc = Quiet-draw env env.app_now

  pub Quiet-new_v4 : Quiet (new_v4 env {E = E})
  unfolding new_v4
  Quiet-new_v4 = Quiet-draw env env.uuid

pub ruleset quiet_rules = (
  Quiet-pure, Quiet-lift, Quiet-if, Quiet-draw, Quiet-map_err, Quiet-bind, Quiet-query, Quiet-db,
  Quiet-now_utc, Quiet-new_v4,
)
