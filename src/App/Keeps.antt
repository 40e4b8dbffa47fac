-- ===== src/App/Keeps.antt =====
-- Invariants of the tables, one rule for each way to build an action. An action keeps `P` whether
-- it succeeds or fails, if each of its statements does and if the other requests do.
use rust_generic_user_backen.Base.{
  ℕ, ◌≡◌, ap, subst, Option, none, some, Bool, true, false, if◌then◌else◌,
}
use rust_generic_user_backen.Base.Result.{Result, ok, err}
use rust_generic_user_backen.Core.User.{Uuid, OffsetDateTime}
use rust_generic_user_backen.Db.Schema.{Db, DbError, Statement}
use rust_generic_user_backen.Env.{Env, Fault, clean, lost_request, lost_reply}
use rust_generic_user_backen.App.Inversion.{Ran}
use rust_generic_user_backen.App.{
  World, Mail, App, pure, raise, lift, ok_or, raise_if, attempt, map_err, settle, query, draw,
  continue, now_utc, new_v4, fill_bytes, generate_salt, db, spawn, ◌>>=◌,
}

pub record Keeps {ℓ} {E A : Type 0} (P : Db → Type ℓ) (m : App E A) : Type ℓ where
  pub at : (w : World) → P w.db → P (m w).1.db

-- A statement keeps `P`, at every time and with every id that it may draw.
pub record KeepsStatement {ℓ} {A : Type 0} (P : Db → Type ℓ) (stmt : Statement A) : Type ℓ where
  pub at : (now : OffsetDateTime) (fresh : Uuid) (d : Db) → P d → P (stmt now fresh d).1

-- The other requests keep `P`.
pub record OthersKeep {ℓ} (env : Env) (P : Db → Type ℓ) : Type ℓ where
  pub at : (n : ℕ) (d : Db) → P d → P (env.others n d)

module _ {ℓ} {E A : Type 0} {P : Db → Type ℓ} where
  pub Keeps-pure : (a : A) → Keeps P (pure {E = E} a)
  unfolding pure
  Keeps-pure a = record { at = λ w h. h }

  pub Keeps-raise : (e : E) → Keeps P (raise {A = A} e)
  unfolding raise
  Keeps-raise e = record { at = λ w h. h }

  pub Keeps-lift : (r : Result E A) → Keeps P (lift r)
  unfolding lift
  Keeps-lift r = record { at = λ w h. h }

  pub Keeps-ok_or : (o : Option A) (e : E) → Keeps P (ok_or o e)
  unfolding ok_or
  Keeps-ok_or none e = record { at = λ w h. h }
  Keeps-ok_or (some a) e = record { at = λ w h. h }

  pub Keeps-if : (b : Bool) (m n : App E A) → Keeps P m → Keeps P n → Keeps P (if b then m else n)
  Keeps-if true m n km kn = km
  Keeps-if false m n km kn = kn

  pub Keeps-draw : (env : Env) (source : ℕ → A) → Keeps P (draw env {E = E} source)
  unfolding draw
  Keeps-draw env source = record { at = λ w h. h }

module _ {ℓ} {E F A : Type 0} {P : Db → Type ℓ} where
  pub Keeps-attempt : (m : App E A) → Keeps P m → Keeps P (attempt {F = F} m)
  unfolding attempt
  Keeps-attempt m k = record { at = k.at }

  pub Keeps-map_err : (f : E → F) (m : App E A) → Keeps P m → Keeps P (map_err f m)
  unfolding map_err
  Keeps-map_err f m k = record { at = k.at }

module _ {ℓ} {E A B : Type 0} {P : Db → Type ℓ} where
  Keeps-continue :
      (r : Result E A) (f : A → App E B)
      → ((a : A) → Keeps P (f a))
      → (w : World) → P w.db
      → P (continue r f w).1.db
  Keeps-continue (ok a) f kf w h = (kf a).at w h
  Keeps-continue (err e) f kf w h = h

  pub Keeps-bind :
      (m : App E A) (f : A → App E B) → Keeps P m → ((a : A) → Keeps P (f a)) → Keeps P (m >>= f)
  unfolding ◌>>=◌
  Keeps-bind m f km kf = record { at = λ w h. Keeps-continue (m w).0 f kf (m w).1 (km.at w h) }

pub Keeps-raise_if {ℓ} : {E : Type 0} {P : Db → Type ℓ} (t : Bool) (e : E) → Keeps P (raise_if t e)
unfolding raise_if
Keeps-raise_if t e = record { at = λ w h. h }

pub Keeps-spawn {ℓ} : {E : Type 0} {P : Db → Type ℓ} (mail : Mail) → Keeps P (spawn {E = E} mail)
unfolding spawn
Keeps-spawn mail = record { at = λ w h. h }

settle-keeps {ℓ} :
    {A : Type 0} (P : Db → Type ℓ) (f : Fault) (r : Result DbError A) (before after : Db)
    → P before
    → P after
    → P (settle f r before after).1
unfolding settle
settle-keeps P clean r before after h k = k
settle-keeps P (lost_request e) r before after h k = h
settle-keeps P (lost_reply e) r before after h k = k

module _ {ℓ} {A : Type 0} {P : Db → Type ℓ} (env : Env) where
  pub Keeps-query :
      (stmt : Statement A) → OthersKeep env P → KeepsStatement P stmt → Keeps P (query env stmt)
  unfolding query
  Keeps-query stmt others k = record {
    at = λ w h.
        let b = others.at w.effects w.db h in
        settle-keeps P (env.fault w.effects) _ _ _ b (k.at _ _ _ b);
  }

  pub Keeps-db : (m : App DbError A) → Keeps P m → Keeps P (db env m)
  unfolding db
  Keeps-db m k = record { at = k.at }

-- What a statement keeps holds after it was run, and what an action keeps holds in its last world.
module _ {ℓ} {A : Type 0} (P : Db → Type ℓ) (env : Env) (others : OthersKeep env P) where
  pub Ran-keeps :
      (stmt : Statement A) {w w' : World} {a : A}
      → KeepsStatement P stmt
      → Ran env stmt w a w'
      → P w.db
      → P w'.db
  Ran-keeps stmt {w} k ran h =
      subst P (ap (λ p. p.1) ran.outcome) (k.at _ _ _ (others.at w.effects w.db h))

module _ {ℓ} {E A : Type 0} (P : Db → Type ℓ) where
  pub run-keeps :
      (m : App E A) {w w' : World} {r : Result E A} → Keeps P m → m w ≡ (r, w') → P w.db → P w'.db
  run-keeps m {w} k e h = subst P (ap (λ p. p.1.db) e) (k.at w h)

-- The effects that only draw from the environment.
module _ {ℓ} {E : Type 0} {P : Db → Type ℓ} (env : Env) where
  pub Keeps-now_utc : Keeps P (now_utc env {E = E})
  unfolding now_utc
  Keeps-now_utc = record { at = λ w h. h }

  pub Keeps-new_v4 : Keeps P (new_v4 env {E = E})
  unfolding new_v4
  Keeps-new_v4 = record { at = λ w h. h }

  pub Keeps-fill_bytes : Keeps P (fill_bytes env {E = E})
  unfolding fill_bytes
  Keeps-fill_bytes = record { at = λ w h. h }

  pub Keeps-generate_salt : Keeps P (generate_salt env {E = E})
  unfolding generate_salt
  Keeps-generate_salt = record { at = λ w h. h }

pub ruleset keeps_rules = (
  Keeps-pure, Keeps-raise, Keeps-lift, Keeps-ok_or, Keeps-raise_if, Keeps-if, Keeps-draw,
  Keeps-attempt, Keeps-map_err, Keeps-bind, Keeps-spawn, Keeps-query, Keeps-db, Keeps-now_utc,
  Keeps-new_v4, Keeps-fill_bytes, Keeps-generate_salt,
)
