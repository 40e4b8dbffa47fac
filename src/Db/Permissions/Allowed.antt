-- ===== src/Db/Permissions/Allowed.antt =====
-- Which permissions the query of `permissions_for` finds.
use rust_generic_user_backen.Base.{
  ℕ, String, ◌≡◌, refl, sym, ap, ◌∙◌, Bool, true, false, not, ◌&&◌, ◌||◌, List, [], ◌∷◌, ◌++◌, ◌==◌,
  arith, eq_iff, str_eq, any, if◌then◌else◌,
}
use rust_generic_user_backen.Base.Result.{ok}
use rust_generic_user_backen.App.Inversion.{ok-injective}
use rust_generic_user_backen.Core.User.{Uuid, OffsetDateTime}
use rust_generic_user_backen.Db.Schema.{
  PermissionRow, RolePermissionRow, UserRow, UserPermissionRow, Db,
}
use rust_generic_user_backen.Db.Permissions.{
  contains, gather, permission_names, role_perms, granted, revoked, distinct, not_in,
  select_permissions,
}

contains-++ : (s : String) (a b : List String) → contains s (a ++ b) ≡ contains s a || contains s b
contains-++ s [] b = refl
contains-++ s (t ∷ a) b = ground (arith, contains-++ s a b)

contains-distinct : (s : String) (l : List String) → contains s (distinct l) ≡ contains s l
unfolding distinct
contains-distinct s [] = refl
contains-distinct s (t ∷ l) = ground (arith, contains-distinct s l, eq_iff t s)

contains-not_in :
    (s : String) (out l : List String)
    → contains s (not_in out l) ≡ contains s l && not (contains s out)
unfolding not_in
contains-not_in s out [] = refl
contains-not_in s out (t ∷ l) = ground (arith, contains-not_in s out l, eq_iff t s)

contains-gather :
    {A : Type 0} (s : String) (p q : A → Bool) (f : A → List String)
    → ((x : A) → contains s (f x) ≡ q x)
    → (rows : List A) → contains s (gather p f rows) ≡ any (λ x. p x && q x) rows
unfolding gather
contains-gather s p q f same [] = refl
contains-gather s p q f same (x ∷ rows) =
    ground (arith, contains-gather s p q f same rows, contains-++ s (f x) (gather p f rows), same x)

-- The permission with this id has this name.
abbrev pub names_permission : String → Db → ℕ → Bool
names_permission s d id =
    any (λ (p : PermissionRow). p.id == id && (str_eq p.name s || false)) d.permissions

-- The role of a user with this id has a permission of this name.
abbrev pub role_allows : Uuid → String → Db → Bool
role_allows id s d =
    any
      (λ (u : UserRow).
        u.id == id
        && any
            (λ (rp : RolePermissionRow).
              rp.role_id == u.role_id && names_permission s d rp.permission_id)
            d.role_permissions)
      d.users

-- The user has a row of its own that grants, or that revokes, a permission of this name.
abbrev pub overrides_to : Bool → Uuid → String → Db → Bool
overrides_to grant id s d =
    any
      (λ (up : UserPermissionRow).
        (up.user_id == id && (if grant then up.granted else not up.granted))
        && names_permission s d up.permission_id)
      d.user_permissions

-- A permission comes with the role or with a grant, unless it is revoked.
abbrev pub allowed : Uuid → String → Db → Bool
allowed id s d = (role_allows id s d || overrides_to true id s d) && not (overrides_to false id s d)

module _ (s : String) (d : Db) where
  contains-permission_names :
      (id : ℕ) → contains s (permission_names id d) ≡ names_permission s d id
  unfolding permission_names
  contains-permission_names id = contains-gather s _ _ (λ p. p.name ∷ []) (λ p. refl) d.permissions

  contains-role_perms : (id : Uuid) → contains s (role_perms id d) ≡ role_allows id s d
  unfolding role_perms
  contains-role_perms id =
      contains-gather s _ _ _
        (λ u.
          contains-gather s _ _ _ (λ rp. contains-permission_names rp.permission_id)
            d.role_permissions)
        d.users

  contains-granted : (id : Uuid) → contains s (granted id d) ≡ overrides_to true id s d
  unfolding granted
  contains-granted id =
      contains-gather s _ _ _ (λ up. contains-permission_names up.permission_id) d.user_permissions

  contains-revoked : (id : Uuid) → contains s (revoked id d) ≡ overrides_to false id s d
  unfolding revoked
  contains-revoked id =
      contains-gather s _ _ _ (λ up. contains-permission_names up.permission_id) d.user_permissions

-- The names that the query of `permissions_for` finds.
unfoldable pub permissions_of : Uuid → Db → List String
permissions_of id d = not_in (revoked id d) (distinct (role_perms id d ++ granted id d))

pub select_permissions-reads :
    (id : Uuid) (now : OffsetDateTime) (fresh : Uuid) (d : Db)
    → select_permissions id now fresh d ≡ (ok (permissions_of id d), d)
unfolding select_permissions permissions_of
select_permissions-reads id now fresh d = refl

pub permissions_of-allowed :
    (id : Uuid) (s : String) (d : Db) → contains s (permissions_of id d) ≡ allowed id s d
unfolding permissions_of
permissions_of-allowed id s d =
    contains-not_in s (revoked id d) (distinct (role_perms id d ++ granted id d))
    ∙ rw
        (
          contains-distinct s (role_perms id d ++ granted id d),
          contains-++ s (role_perms id d) (granted id d),
          contains-role_perms s d id,
          contains-granted s d id,
          contains-revoked s d id,
        )
        refl

-- The query of `permissions_for` answers with a permission just when the role of the user has it
-- or a row of the user grants it, and no row of the user revokes it.
pub select_permissions-allowed :
    (id : Uuid) (now : OffsetDateTime) (fresh : Uuid) (d d' : Db) (names : List String) (s : String)
    → select_permissions id now fresh d ≡ (ok names, d')
    → contains s names ≡ allowed id s d
select_permissions-allowed id now fresh d d' names s h =
    let same = ok-injective (ap (λ p. p.0) (sym (select_permissions-reads id now fresh d) ∙ h)) in
    rw (← same) (permissions_of-allowed id s d)
