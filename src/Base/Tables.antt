-- ===== src/Base/Tables.antt =====
-- Keys and references of tables as tests on lists of rows, and what an update does to them.
use mathlib.Core.Path.{◌≡◌, refl}
use mathlib.Core.Bool.{Bool, true, false, not, ◌&&◌, ◌||◌}
use mathlib.Core.List.{List, [], ◌∷◌}
use native.Mathlib.Omega.{arith}
use rust_generic_user_backen.Base.Lists.{any, update}

module _ {ℓ} {A : Type ℓ} where
  abbrev pub all : (A → Bool) → List A → Bool
  all p [] = true
  all p (x ∷ xs) = p x && all p xs

  -- No two rows are the same by the test: a key.
  abbrev pub apart : (A → A → Bool) → List A → Bool
  apart same [] = true
  apart same (x ∷ xs) = not (any (same x) xs) && apart same xs

  pub any-cong : (p q : A → Bool) → ((x : A) → p x ≡ q x) → (xs : List A) → any p xs ≡ any q xs
  any-cong p q h [] = refl
  any-cong p q h (x ∷ xs) = ground (arith, h x, any-cong p q h xs)

  pub any-imp :
      (p q : A → Bool)
      → ((x : A) → p x ≡ true → q x ≡ true)
      → (xs : List A) → any p xs ≡ true
      → any q xs ≡ true
  any-imp p q h [] e = e
  any-imp p q h (x ∷ xs) e = ground (arith, h x, any-imp p q h xs)

  pub all-imp :
      (p q : A → Bool)
      → ((x : A) → p x ≡ true → q x ≡ true)
      → (xs : List A) → all p xs ≡ true
      → all q xs ≡ true
  all-imp p q h [] e = e
  all-imp p q h (x ∷ xs) e = ground (arith, h x, all-imp p q h xs)

  module _ (p : A → Bool) (f : A → A) where
    pub any-update :
        (q : A → Bool)
        → ((x : A) → q (f x) ≡ q x)
        → (xs : List A) → any q (update p f xs) ≡ any q xs
    any-update q h [] = refl
    any-update q h (x ∷ xs) = ground (arith, h x, any-update q h xs)

    -- The rows that are updated pass the test afterwards.
    pub all-update :
        (q : A → Bool)
        → ((x : A) → p x ≡ true → q x ≡ true → q (f x) ≡ true)
        → (xs : List A) → all q xs ≡ true
        → all q (update p f xs) ≡ true
    all-update q h [] e = e
    all-update q h (x ∷ xs) e = ground (arith, h x, all-update q h xs)

    -- An update that leaves the key alone.
    pub apart-update :
        (same : A → A → Bool)
        → ((x y : A) → same (f x) y ≡ same x y)
        → ((x y : A) → same x (f y) ≡ same x y)
        → (xs : List A) → apart same (update p f xs) ≡ apart same xs
    apart-update same l r [] = refl
    apart-update same l r (x ∷ xs) = ground (
      arith,
      any-cong (same (f x)) (same x) (l x) xs,
      any-update (same x) (r x) xs,
      any-update (same (f x)) (r (f x)) xs,
      apart-update same l r xs,
    )

  -- Where no row passes either of two tests.
  pub any-or :
      (p q : A → Bool) (xs : List A)
      → any (λ x. p x || q x) xs ≡ false
      → (any p xs ≡ false) × (any q xs ≡ false)
  any-or p q [] h = (refl, refl)
  any-or p q (x ∷ xs) h = ground (arith, any-or p q xs)
