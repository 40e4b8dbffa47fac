-- ===== src/Db/Permissions/Override.antt =====
-- What a grant or a revocation changes of the permissions of a user.
use rust_generic_user_backen.Base.{
  ℕ, String, ◌≡◌, refl, Bool, true, false, not, ◌&&◌, ◌||◌, some, List, [], ◌∷◌, ◌==◌, arith,
  str_eq, any, find, update, if◌then◌else◌, Bool-cases, inl, inr,
}
use rust_generic_user_backen.Base.Result.{ok}
use rust_generic_user_backen.Core.User.{Uuid, OffsetDateTime}
use rust_generic_user_backen.Db.Schema.{PermissionRow, UserPermissionRow, Db}
use rust_generic_user_backen.Db.Permissions.{upsert_permission}
use rust_generic_user_backen.Db.Permissions.Allowed.{names_permission, overrides_to, allowed}

found-named :
    (name : String) (ps : List PermissionRow) {p : PermissionRow}
    → find (λ (p : PermissionRow). str_eq p.name name) ps ≡ some p
    → any (λ (q : PermissionRow). q.id == p.id && (str_eq q.name name || false)) ps ≡ true
found-named name [] h = cc
found-named name (q ∷ ps) {p} h = elim (Bool-cases (str_eq q.name name)) [
  | inl t ↦ ground (arith, t)
  | inr f ↦ ground (arith, f, found-named name ps {p = p})
]

-- The row of this user and this permission.
abbrev mine : Uuid → ℕ → UserPermissionRow → Bool
mine user_id id up = up.user_id == user_id && up.permission_id == id

-- The row overrides the permission in this sense.
abbrev overriding : Bool → Uuid → (ℕ → Bool) → UserPermissionRow → Bool
overriding grant user_id named up =
    (up.user_id == user_id && (if grant then up.granted else not up.granted))
    && named up.permission_id

module _ (user_id : Uuid) (id : ℕ) (named : ℕ → Bool) (grant : Bool) where
  -- With the row updated, it overrides in the sense that was asked for.
  overrides-updated :
      (rows : List UserPermissionRow)
      → named id ≡ true
      → any (mine user_id id) rows ≡ true
      → any
          (overriding grant user_id named)
          (update (mine user_id id) (λ up. record up { granted = grant }) rows)
        ≡ true
  overrides-updated [] there h = h
  overrides-updated (up ∷ rows) there h = elim (Bool-cases (mine user_id id up)) [
    | inl t ↦
        let same : up.permission_id ≡ id = ground (arith, t) in
        let here : named up.permission_id ≡ true = rw same there in
        elim (Bool-cases grant) [
          | inl g ↦ ground (arith, t, here, g)
          | inr g ↦ ground (arith, t, here, g)
        ]
    | inr f ↦ ground (arith, f, overrides-updated rows there)
  ]

  -- And no row overrides it in the other sense, if no other permission has the name.
  opposite-updated :
      (rows : List UserPermissionRow)
      → ((k : ℕ) → named k ≡ true → k ≡ id)
      → any
          (overriding (not grant) user_id named)
          (update (mine user_id id) (λ up. record up { granted = grant }) rows)
        ≡ false
  opposite-updated [] alone = refl
  opposite-updated (up ∷ rows) alone = elim (Bool-cases (mine user_id id up)) [
    | inl t ↦ elim (Bool-cases grant) [
      | inl g ↦ ground (arith, t, g, opposite-updated rows alone)
      | inr g ↦ ground (arith, t, g, opposite-updated rows alone)
    ]
    | inr f ↦ ground (arith, f, alone up.permission_id, opposite-updated rows alone)
  ]

  -- No row overrides it that is not the user's row for the permission.
  opposite-none :
      (rows : List UserPermissionRow)
      → ((k : ℕ) → named k ≡ true → k ≡ id)
      → any (mine user_id id) rows ≡ false
      → any (overriding (not grant) user_id named) rows ≡ false
  opposite-none [] alone h = refl
  opposite-none (up ∷ rows) alone h =
      ground (arith, alone up.permission_id, opposite-none rows alone)

-- The permission with this name, and no other has it.
pub record Names (name : String) (d : Db) (p : PermissionRow) : Type 0 where
  pub found : find (λ (p : PermissionRow). str_eq p.name name) d.permissions ≡ some p
  pub alone : (k : ℕ) → names_permission name d k ≡ true → k ≡ p.id

-- A grant or a revocation that succeeds leaves the permission overridden in that sense only.
upsert_permission-overrides :
    (user_id : Uuid) (name : String) (grant : Bool) (now : OffsetDateTime) (fresh : Uuid)
    (d d' : Db) (p : PermissionRow)
    → Names name d p
    → upsert_permission user_id name grant now fresh d ≡ (ok tt, d')
    → (overrides_to grant user_id name d' ≡ true)
      × (overrides_to (not grant) user_id name d' ≡ false)
unfolding upsert_permission
upsert_permission-overrides user_id name grant now fresh d d' p n h =
    let found = n.found in
    let there = found-named name d.permissions found in
    let named = names_permission name d in
    elim (Bool-cases (any (mine user_id p.id) d.user_permissions)) [
      | inl t ↦
          let e : record d {
            user_permissions =
                update (mine user_id p.id) (λ up. record up { granted = grant }) d.user_permissions;
          }
              ≡ d' =
            ground (arith, found, t, h) in
          rw (← e) (
            overrides-updated user_id p.id named grant d.user_permissions there t,
            opposite-updated user_id p.id named grant d.user_permissions n.alone,
          )
      | inr f ↦
          let e : record d {
            user_permissions =
                record { user_id = user_id; permission_id = p.id; granted = grant }
                ∷ d.user_permissions;
          }
              ≡ d' =
            ground (arith, found, f, h) in
          rw (← e) (elim (Bool-cases grant) [
            | inl g ↦ (
              ground (arith, g, there),
              ground
                  (arith, g, opposite-none user_id p.id named grant d.user_permissions n.alone f),
            )
            | inr g ↦ (
              ground (arith, g, there),
              ground
                  (arith, g, opposite-none user_id p.id named grant d.user_permissions n.alone f),
            )
          ])
    ]

-- After a grant that succeeded the user is allowed the permission, and after a revocation it is
-- not, whatever its role has and whatever was granted or revoked before, if no other permission
-- has the name.
pub upsert_permission-allowed :
    (user_id : Uuid) (name : String) (grant : Bool) (now : OffsetDateTime) (fresh : Uuid)
    (d d' : Db) (p : PermissionRow)
    → Names name d p
    → upsert_permission user_id name grant now fresh d ≡ (ok tt, d')
    → allowed user_id name d' ≡ grant
upsert_permission-allowed user_id name true now fresh d d' p n h =
    let o = upsert_permission-overrides user_id name true now fresh d d' p n h in ground (arith, o)
upsert_permission-allowed user_id name false now fresh d d' p n h =
    let o = upsert_permission-overrides user_id name false now fresh d d' p n h in ground (arith, o)
