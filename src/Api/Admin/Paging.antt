-- ===== src/Api/Admin/Paging.antt =====
-- The size of a page of users.
use rust_generic_user_backen.Base.{
  ℕ, String, Bool-cases, inl, inr, ◌≡◌, refl, ap, ◌≤◌, List, [], ◌∷◌, map, suc, arith, length, drop,
  length-take, leb,
}
use rust_generic_user_backen.Base.Int.{ℤ, pos, negsuc, min_i64}
use rust_generic_user_backen.Base.Result.{ok}
use rust_generic_user_backen.Core.User.{Uuid, OffsetDateTime, User}
use rust_generic_user_backen.Db.Schema.{Db, UserRow}
use rust_generic_user_backen.Db.Users
use rust_generic_user_backen.Db.Users.{select_page, user_of, join_roles, newest_first}
use rust_generic_user_backen.Env.{Env}
use rust_generic_user_backen.App.{World}
use rust_generic_user_backen.App.Inversion.{
  after_any, db-eq-ok, query-eq-ok, pure-eq-ok, >>=-eq-ok, ok-injective,
}
use rust_generic_user_backen.Api.Extract.{VerifiedUser}
use rust_generic_user_backen.Api.Admin.{Page, list_users}

length-map : {A B : Type 0} (f : A → B) (xs : List A) → length (map f xs) ≡ length xs
length-map f [] = refl
length-map f (x ∷ xs) = ap suc (length-map f xs)

page-length :
    (n : ℕ) (offset : ℤ) (now : OffsetDateTime) (fresh : Uuid) (d d' : Db)
    {rows : List (UserRow × String)}
    → n ≤ 200
    → select_page (pos n) offset now fresh d ≡ (ok rows, d')
    → length rows ≤ 200
unfolding select_page
page-length n (negsuc m) now fresh d d' k h = cc
page-length n (pos m) now fresh d d' k h =
    let bound = length-take n (drop m (join_roles d (newest_first d.users))) in
    let same = ok-injective (ap (λ p. p.0) h) in rw (← same) (omega (arith, bound, k))

capped : (n : ℕ) → (k : ℕ) × (min_i64 (pos n) (pos 200) ≡ pos k) × (k ≤ 200)
capped n = elim (Bool-cases (leb n 200)) [
  | inl small ↦ (n, ground (arith, small), ground (arith, small))
  | inr large ↦ (200, ground (arith, large), omega arith)
]

negative : (n : ℕ) → min_i64 (negsuc n) (pos 200) ≡ negsuc n
negative n = ground arith

-- With a limit of 200 at most no page is longer, whatever the limit and the offset.
select_page-length :
    (limit offset : ℤ) (now : OffsetDateTime) (fresh : Uuid) (d d' : Db)
    {rows : List (UserRow × String)}
    → select_page (min_i64 limit (pos 200)) offset now fresh d ≡ (ok rows, d')
    → length rows ≤ 200
unfolding select_page
select_page-length (negsuc n) (pos m) now fresh d d' h =
    let same = negative n in let e = rw same at h in cc
select_page-length (negsuc n) (negsuc m) now fresh d d' h = cc
select_page-length (pos n) offset now fresh d d' h =
    let (k, same, small) = capped n in page-length k offset now fresh d d' small (rw same at h)

module _ (env : Env) (user : VerifiedUser) (page : Page) where
  -- A page of users has 200 of them at most, whatever limit and offset the request gives.
  pub list_users-bounded :
      (w w' : World) (users : List User)
      → list_users env user page w ≡ (ok users, w')
      → length users ≤ 200
  unfolding list_users Users.list_users
  list_users-bounded w w' users e = after_any _ _ e λ done v authorized r1.
      let (rows, v2, q, last) = >>=-eq-ok _ _ (db-eq-ok env _ r1) in
      let bound = select_page-length page.limit page.offset _ _ _ _ (query-eq-ok env _ q).outcome in
      rw (← (pure-eq-ok last).0, length-map user_of rows) bound
