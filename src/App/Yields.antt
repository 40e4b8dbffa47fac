-- ===== src/App/Yields.antt =====
-- What every value that an action returns satisfies: one rule for each way that an action ends.
use rust_generic_user_backen.Base.{◌≡◌, Bool, true, false, subst, if◌then◌else◌}
use rust_generic_user_backen.Base.Result.{ok}
use rust_generic_user_backen.App.{World, App, pure, raise, ◌>>=◌}
use rust_generic_user_backen.App.Inversion.{after_any, pure-eq-ok}

pub record Yields {E A : Type 0} (P : A → Type 0) (m : App E A) : Type 0 where
  pub at : (w : World) {w' : World} {a : A} → m w ≡ (ok a, w') → P a

module _ {E A : Type 0} {P : A → Type 0} where
  pub Yields-pure : (a : A) → P a → Yields P (pure {E = E} a)
  Yields-pure a p = record { at = λ w e. subst P (pure-eq-ok e).0 p }

  pub Yields-raise : (e : E) → Yields P (raise e)
  unfolding raise
  Yields-raise e = record { at = λ w h. cc }

  pub Yields-if :
      (b : Bool) (m n : App E A) → Yields P m → Yields P n → Yields P (if b then m else n)
  Yields-if true m n ym yn = ym
  Yields-if false m n ym yn = yn

module _ {E A B : Type 0} {P : B → Type 0} where
  pub Yields-bind :
      (m : App E A) (f : A → App E B) → ((a : A) → Yields P (f a)) → Yields P (m >>= f)
  Yields-bind m f y = record { at = λ w e. after_any m f e λ a v p r. (y a).at v r }

  -- The value of the first action is known to pass a test too.
  pub Yields-then :
      (Q : A → Type 0) (m : App E A) (f : A → App E B)
      → Yields Q m
      → ((a : A) → Q a → Yields P (f a))
      → Yields P (m >>= f)
  Yields-then Q m f q y = record { at = λ w e. after_any m f e λ a v p r. (y a (q.at w p)).at v r }

pub ruleset yields_rules = (Yields-pure, Yields-raise, Yields-if, Yields-bind)
