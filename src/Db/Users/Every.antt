-- ===== src/Db/Users/Every.antt =====
-- What all rows of `users` satisfy: after an update, and of the row that a query finds.
use rust_generic_user_backen.Base.{
  Bool, String, ◌≡◌, ◌&&◌, some, true, false, List, [], ◌∷◌, subst, arith, find, update, is_some,
  All, inl, inr, Bool-cases, Option-cases,
}
use rust_generic_user_backen.Db.Schema.{Db, UserRow}
use rust_generic_user_backen.Db.Users.{select_user, role_name}

-- Each row is as the update makes it, or the update passes it over.
pub All-of_update {ℓ κ} :
    {A : Type ℓ} (P : A → Type κ) (p : A → Bool) (f : A → A)
    → ((x : A) → p x ≡ true → P (f x))
    → ((x : A) → p x ≡ false → P x)
    → (xs : List A) → All P (update p f xs)
All-of_update P p f changed passed [] = tt
All-of_update P p f changed passed (x ∷ xs) = (
  elim (Bool-cases (p x)) [
    | inl t ↦ subst P (ground (arith, t)) (changed x t)
    | inr e ↦ subst P (ground (arith, e)) (passed x e)
  ],
  All-of_update P p f changed passed xs,
)

find-All {ℓ κ} :
    {A : Type ℓ} (P : A → Type κ) (p : A → Bool) (xs : List A) {x : A}
    → All P xs
    → find p xs ≡ some x
    → P x
find-All P p [] h e = cc
find-All P p (y ∷ xs) (py, h) e = elim (Bool-cases (p y)) [
  | inl t ↦ subst P (ground (arith, e, t)) py
  | inr f ↦ find-All P p xs h (ground (arith, e, f))
]

-- What all users satisfy, the user that a query finds satisfies.
pub select_user-All {κ} :
    (P : UserRow → Type κ) (p : UserRow → Bool) (d : Db) {row : UserRow} {name : String}
    → All P d.users
    → select_user p d ≡ some (row, name)
    → P row
unfolding select_user
select_user-All P p d {row} {name} all h =
    elim (Option-cases (find (λ u. p u && is_some (role_name d u.role_id)) d.users)) [
      | inl missing ↦ ground (arith, missing, h)
      | inr (u, e) ↦ elim (Option-cases (role_name d u.role_id)) [
        | inl nameless ↦ ground (arith, e, nameless, h)
        | inr (n, named) ↦
            subst P (ground (arith, e, named, h))
              (find-All P (λ u. p u && is_some (role_name d u.role_id)) d.users all e)
      ]
    ]
