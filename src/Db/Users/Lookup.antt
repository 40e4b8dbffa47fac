-- ===== src/Db/Users/Lookup.antt =====
-- What the queries on `users` return.
use mathlib.Core.Option
use rust_generic_user_backen.Base.{
  String, ◌≡◌, Bool, true, ◌&&◌, some, List, [], ◌∷◌, arith, ◌==◌, find, any, is_some, find_sound,
  any-of_find, Option-cases, inl, inr,
}
use rust_generic_user_backen.Core.User.{Uuid, OffsetDateTime, User}
use rust_generic_user_backen.Base.Result.{ok}
use rust_generic_user_backen.Db.Schema.{UserRow, Db}
use rust_generic_user_backen.Db.Users.{select_user, user_of, role_name, select_by_id}

-- A row of the table that passes a test, with the name of its role.
pub record Selected (p : UserRow → Bool) (d : Db) (found : UserRow × String) : Type 0 where
  pub passes : p found.0 ≡ true
  pub listed : any p d.users ≡ true
  pub role : role_name d found.0.role_id ≡ some found.1

any-and :
    (p q : UserRow → Bool) (us : List UserRow) → any (λ u. p u && q u) us ≡ true → any p us ≡ true
any-and p q [] h = h
any-and p q (u ∷ us) h = ground (arith, any-and p q us)

pub select_user-Selected :
    (p : UserRow → Bool) (d : Db) {found : UserRow × String}
    → select_user p d ≡ some found
    → Selected p d found
unfolding select_user
select_user-Selected p d {found} h =
    elim (Option-cases (find (λ u. p u && is_some (role_name d u.role_id)) d.users)) [
      | inl missing ↦ ground (arith, missing)
      | inr (u, e) ↦ elim (Option-cases (role_name d u.role_id)) [
        | inl nameless ↦ ground (arith, e, nameless)
        | inr (name, n) ↦
            let t = find_sound (λ u. p u && is_some (role_name d u.role_id)) d.users e in
            let l = any-of_find (λ u. p u && is_some (role_name d u.role_id)) d.users e in
            let same : (u, name) ≡ found = ground (arith, e, n) in
            rw (← same)
              (record { passes = ground (arith, t); listed = any-and p _ d.users l; role = n })
      ]
    ]

-- The user that `find_by_id` returns is a row with that id.
pub select_by_id-Selected :
    (id : Uuid) (now : OffsetDateTime) (fresh : Uuid) (d d' : Db) {u : User}
    → select_by_id id now fresh d ≡ (ok (some u), d')
    → (found : UserRow × String) × (user_of found ≡ u) × Selected (λ r. r.id == id) d found
unfolding select_by_id
select_by_id-Selected id now fresh d d' {u} h =
    let e : Option.map user_of (select_user (λ r. r.id == id) d) ≡ some u = cc in
    let (found, selected, same) = (Option.map-eq-some_iff _ _).0 e in
    (found, same, select_user-Selected _ d selected)
