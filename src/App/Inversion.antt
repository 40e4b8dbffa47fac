-- ===== src/App/Inversion.antt =====
-- What a successful action says of its parts, and what every action says of the world. With these
-- a proof about a handler goes from effect to effect and leaves the effects shut.
use mathlib.Core.Option
use rust_generic_user_backen.Base.{
  ℕ, ◌+◌, ◌≡◌, refl, sym, ap, ◌∙◌, Option, none, some, Bool, true, false,
}
use rust_generic_user_backen.Base.Result
use rust_generic_user_backen.Base.Result.{Result, ok, err, Result-cases}
use rust_generic_user_backen.Core.User.{Uuid, OffsetDateTime}
use rust_generic_user_backen.Core.Error.{AppError}
use rust_generic_user_backen.Db.Schema.{Db, DbError, Statement}
use rust_generic_user_backen.Env.{Env, Fault, clean, lost_request, lost_reply}
use rust_generic_user_backen.App.{
  World, App, pure, raise_if, lift, ok_or, continue, settle, query, draw, db, map_err,
  from_db_error, ◌>>=◌,
}

pub with_state :
    {E A : Type 0} (m : App E A) (w : World) {a : A} → (m w).0 ≡ ok a → m w ≡ (ok a, (m w).1)
with_state {E} {A} m w same = ap {B = Result E A × World} (λ r. (r, (m w).1)) same

module _ {E A B : Type 0} where
  continue-eq-ok :
      (r : Result E A) (f : A → App E B) {w w' : World} {b : B}
      → continue r f w ≡ (ok b, w')
      → (a : A) × (r ≡ ok a) × (f a w ≡ (ok b, w'))
  continue-eq-ok (ok a) f h = (a, refl, h)
  continue-eq-ok (err e) f h = cc

  pub >>=-eq-ok :
      (m : App E A) (f : A → App E B) {w w' : World} {b : B}
      → (m >>= f) w ≡ (ok b, w')
      → (a : A) × (v : World) × (m w ≡ (ok a, v)) × (f a v ≡ (ok b, w'))
  unfolding ◌>>=◌
  >>=-eq-ok m f {w} h =
      let (a, same, rest) = continue-eq-ok (m w).0 f h in (a, (m w).1, with_state m w same, rest)

module _ {E A : Type 0} where
  pub pure-eq-ok : {a b : A} {w w' : World} → pure {E = E} a w ≡ (ok b, w') → (a ≡ b) × (w ≡ w')
  unfolding pure
  pure-eq-ok h = (cc, cc)

  pub ok_or-eq-ok :
      (o : Option A) (e : E) {a : A} {w w' : World}
      → ok_or o e w ≡ (ok a, w')
      → (o ≡ some a) × (w ≡ w')
  unfolding ok_or
  ok_or-eq-ok none e h = cc
  ok_or-eq-ok (some a) e h = (cc, cc)

  pub lift-eq-ok :
      (r : Result E A) {a : A} {w w' : World} → lift r w ≡ (ok a, w') → (r ≡ ok a) × (w ≡ w')
  unfolding lift
  lift-eq-ok r h = (cc, cc)

settle-eq-ok :
    {A : Type 0} (f : Fault) (p : Result DbError A × Db) (before : Db) {a : A} {d : Db}
    → (settle f p.0 before p.1).0 ≡ ok a
    → (settle f p.0 before p.1).1 ≡ d
    → p ≡ (ok a, d)
unfolding settle
settle-eq-ok clean (r, after) before h k = cc
settle-eq-ok (lost_request e) p before h k = cc
settle-eq-ok (lost_reply e) p before h k = cc

map_err-eq-ok :
    {E F A : Type 0} (f : E → F) (p : Result E A × World) {a : A} {w : World}
    → Result.map_err f p.0 ≡ ok a
    → p.1 ≡ w
    → p ≡ (ok a, w)
map_err-eq-ok f (ok a, v) h k = cc
map_err-eq-ok f (err e, v) h k = cc

pub map_err-run-ok :
    {E F A : Type 0} (f : E → F) (m : App E A) {a : A} {w w' : World}
    → map_err f m w ≡ (ok a, w')
    → m w ≡ (ok a, w')
unfolding map_err
map_err-run-ok f m {w = w} h = map_err-eq-ok f (m w) (ap (λ r. r.0) h) (ap (λ r. r.1) h)

pub map_err-ok :
    {E F A : Type 0} (f : E → F) (r : Result E A) {a : A} → Result.map_err f r ≡ ok a → r ≡ ok a
map_err-ok f (ok a) h = cc
map_err-ok f (err e) h = cc

module _ (env : Env) {A : Type 0} where
  -- What a statement does that returned a value: nothing was lost on the way.
  pub record Ran (stmt : Statement A) (w : World) (a : A) (w' : World) : Type 0 where
    pub outcome :
        stmt (env.db_now w.effects) (env.uuid w.effects) (env.others w.effects w.db) ≡ (ok a, w'.db)
    pub counted : w'.effects ≡ w.effects + 1
    pub spawned : w'.spawned ≡ w.spawned

  pub query-eq-ok :
      (stmt : Statement A) {a : A} {w w' : World} → query env stmt w ≡ (ok a, w') → Ran stmt w a w'
  unfolding query
  query-eq-ok stmt {w} h =
      let before = env.others w.effects w.db in
      let p = stmt (env.db_now w.effects) (env.uuid w.effects) before in
      let e = settle-eq-ok (env.fault w.effects) p before (ap (λ r. r.0) h) (ap (λ r. r.1.db) h) in
      record { outcome = e; counted = cc; spawned = cc }

  pub db-eq-ok :
      (m : App DbError A) {a : A} {w w' : World} → db env m w ≡ (ok a, w') → m w ≡ (ok a, w')
  unfolding db
  db-eq-ok m {w} h = map_err-eq-ok (from_db_error env) (m w) (ap (λ r. r.0) h) (ap (λ r. r.1) h)

  pub draw-eq-ok :
      {E : Type 0} (source : ℕ → A) {a : A} {w w' : World}
      → draw env {E = E} source w ≡ (ok a, w')
      → (source w.effects ≡ a) × (w' ≡ record w { effects = w.effects + 1 })
  unfolding draw
  draw-eq-ok source h = (cc, cc)

-- The rules by which a proof walks along a `do` block that returned: each hands on the fact about
-- the first action, with its value and world as variables, and the equation about the rest.
abbrev pub tick : World → World
tick w = record w { effects = w.effects + 1 }

pub ok-injective : {E A : Type 0} {a b : A} → ◌≡◌ {A = Result E A} (ok a) (ok b) → a ≡ b
ok-injective h = cc

module _ {E A B : Type 0} {C : Type 0} {w w' : World} {b : B} where
  pub after_ok_or_map :
      {D : Type 0} (g : D → A) (o : Option D) (e : E) (f : A → App E B)
      → (ok_or (Option.map g o) e >>= f) w ≡ (ok b, w')
      → ((d : D) → o ≡ some d → f (g d) w ≡ (ok b, w') → C)
      → C
  unfolding ◌>>=◌
  after_ok_or_map g none e f h k = cc
  after_ok_or_map g (some d) e f h k = k d refl h

  pub after_any :
      (m : App E A) (f : A → App E B)
      → (m >>= f) w ≡ (ok b, w')
      → ((a : A) (v : World) → m w ≡ (ok a, v) → f a v ≡ (ok b, w') → C)
      → C
  after_any m f h k = let (a, v, p, q) = >>=-eq-ok m f h in k a v p q

  pub after_ok_or :
      (o : Option A) (e : E) (f : A → App E B)
      → (ok_or o e >>= f) w ≡ (ok b, w')
      → ((a : A) → o ≡ some a → f a w ≡ (ok b, w') → C)
      → C
  unfolding ◌>>=◌
  after_ok_or none e f h k = cc
  after_ok_or (some a) e f h k = k a refl h

  pub after_lift :
      (r : Result E A) (f : A → App E B)
      → (lift r >>= f) w ≡ (ok b, w')
      → ((a : A) → r ≡ ok a → f a w ≡ (ok b, w') → C)
      → C
  unfolding ◌>>=◌
  after_lift (ok a) f h k = k a refl h
  after_lift (err e) f h k = cc

module _ {A B : Type 0} {C : Type 0} {w w' : World} {b : B} (env : Env) where
  pub after_query :
      (stmt : Statement A) (f : A → App AppError B)
      → (db env (query env stmt) >>= f) w ≡ (ok b, w')
      → ((a : A) (v : World) → Ran env stmt w a v → f a v ≡ (ok b, w') → C)
      → C
  after_query stmt f h k =
      after_any (db env (query env stmt)) f h
        (λ a v p. k a v (query-eq-ok env stmt (db-eq-ok env (query env stmt) p)))

module _ {A B : Type 0} {C : Type 0} {w' : World} {b : B} (env : Env) (w : World) where
  -- A statement that reads: what it returns is a function of the tables that it saw.
  pub after_read :
      (stmt : Statement A) (g : Db → A)
      → ((now : OffsetDateTime) (fresh : Uuid) (d : Db) → stmt now fresh d ≡ (ok (g d), d))
      → (f : A → App AppError B) → (db env (query env stmt) >>= f) w ≡ (ok b, w')
      → ((v : World)
          → v.db ≡ env.others w.effects w.db
          → v.effects ≡ w.effects + 1
          → f (g (env.others w.effects w.db)) v ≡ (ok b, w')
          → C)
      → C
  after_read stmt g reads f h k = after_query env stmt f h λ a v ran r.
      let e = sym (reads _ _ _) ∙ ran.outcome in
      k v (sym (ap (λ p. p.1) e)) ran.counted (rw (ok-injective (ap (λ p. p.0) e)) r)

module _ {A : Type 0} (env : Env) where
  -- The world after a statement that answered is determined by the one before.
  pub Ran-world :
      (stmt : Statement A) {w w' : World} {a b : A} {d : Db}
      → stmt (env.db_now w.effects) (env.uuid w.effects) (env.others w.effects w.db) ≡ (ok b, d)
      → Ran env stmt w a w'
      → w' ≡ record w { db = d; effects = w.effects + 1 }
  Ran-world stmt {w = w} {w' = w'} answer ran =
      let tables = ap (λ p. p.1) (sym ran.outcome ∙ answer) in
      λ i. record { db = tables i; effects = ran.counted i; spawned = ran.spawned i }

module _ {A B : Type 0} {C : Type 0} {w' : World} {b : B} (env : Env) (w : World) where
  -- As `after_read`, with the world after the statement.
  pub after_seen :
      (stmt : Statement A) (g : Db → A)
      → ((now : OffsetDateTime) (fresh : Uuid) (d : Db) → stmt now fresh d ≡ (ok (g d), d))
      → (f : A → App AppError B) → (db env (query env stmt) >>= f) w ≡ (ok b, w')
      → (f
              (g (env.others w.effects w.db))
              (record w { db = env.others w.effects w.db; effects = w.effects + 1 })
            ≡ (ok b, w')
          → C)
      → C
  after_seen stmt g reads f h k = after_query env stmt f h λ a v ran r.
      let answer = ok-injective (ap (λ p. p.0) (sym (reads _ _ _) ∙ ran.outcome)) in
      k (rw (answer, ← Ran-world env stmt (reads _ _ _) ran) r)

module _ {E A B : Type 0} {w w' : World} {b : B} (env : Env) where
  pub after_draw :
      (source : ℕ → A) (f : A → App E B)
      → (draw env source >>= f) w ≡ (ok b, w')
      → f (source w.effects) (tick w) ≡ (ok b, w')
  unfolding draw ◌>>=◌
  after_draw source f h = h

module _ {E B : Type 0} {w w' : World} {b : B} where
  -- A guard was passed.
  pub after_raise_if :
      (t : Bool) (e : E) (f : Unit → App E B)
      → (raise_if t e >>= f) w ≡ (ok b, w')
      → (t ≡ false) × (f tt w ≡ (ok b, w'))
  unfolding ◌>>=◌
  after_raise_if true e f h = cc
  after_raise_if false e f h = (refl, h)
