-- ===== src/Db/Users/Created.antt =====
-- What the insertion of a user has done when it answers with a row.
use rust_generic_user_backen.Base.{
  ℕ, ◌+◌, ◌≡◌, refl, ◌∙◌, true, false, ◌||◌, List, [], ◌∷◌, ◌==◌, arith, any, find, str_eq, some,
  Option-cases, inl, inr,
}
use rust_generic_user_backen.Base.Result.{ok}
use rust_generic_user_backen.Core.Role
use rust_generic_user_backen.Core.Role.{Role}
use rust_generic_user_backen.Core.User.{Uuid, OffsetDateTime, User}
use rust_generic_user_backen.Db.Schema.{RoleRow, UserRow, Db}
use rust_generic_user_backen.Db.Users.{
  NewUser, insert_user, same_email, create_user, select_role_id,
}
use rust_generic_user_backen.Env.{Env}
use rust_generic_user_backen.App.{World, db}
use rust_generic_user_backen.App.Inversion.{db-eq-ok, query-eq-ok, pure-eq-ok, after_any}

-- The id is that of a row with the name of the role.
select_role_id-found :
    (role : Role) (now : OffsetDateTime) (fresh : Uuid) (d d' : Db) {id : ℕ}
    → select_role_id role now fresh d ≡ (ok id, d')
    → (r : RoleRow) × (find (λ (r : RoleRow). str_eq r.name (Role.as_str role)) d.roles ≡ some r)
      × (id ≡ r.id)
      × (d ≡ d')
unfolding select_role_id
select_role_id-found role now fresh d d' h =
    elim (Option-cases (find (λ (r : RoleRow). str_eq r.name (Role.as_str role)) d.roles)) [
      | inl missing ↦ ground (arith, missing)
      | inr (r, found) ↦ (r, found, ground (arith, found), ground (arith, found))
    ]

module _ (env : Env) (new : NewUser) where
  -- The row that stands in front of the table, and what was not in it.
  pub record Inserted (role_id : ℕ) (row : UserRow) (before after : Db) : Type 0 where
    pub rest : after ≡ record before { users = row ∷ before.users }
    pub email : row.email ≡ new.email
    pub password_hash : row.password_hash ≡ new.password_hash
    pub email_verified : row.email_verified ≡ new.email_verified
    pub role : row.role_id ≡ role_id
    pub active : row.is_active ≡ true
    pub role_exists : any (λ (r : RoleRow). r.id == role_id) before.roles ≡ true
    pub new_address : any (λ (u : UserRow). same_email env u.email new.email) before.users ≡ false
    pub new_id : any (λ (u : UserRow). u.id == row.id) before.users ≡ false

  new_row :
      (fresh : Uuid) (users : List UserRow)
      → any (λ (u : UserRow). u.id == fresh || same_email env u.email new.email) users ≡ false
      → (any (λ (u : UserRow). same_email env u.email new.email) users ≡ false)
        × (any (λ (u : UserRow). u.id == fresh) users ≡ false)
  new_row fresh [] h = (refl, refl)
  new_row fresh (u ∷ users) h = ground (arith, new_row fresh users)

  pub insert_user-Inserted :
      (role_id : ℕ) (now : OffsetDateTime) (fresh : Uuid) (d d' : Db) {row : UserRow}
      → insert_user env new role_id now fresh d ≡ (ok row, d')
      → Inserted role_id row d d'
  unfolding insert_user
  insert_user-Inserted role_id now fresh d d' h =
      let new_row = new_row fresh d.users in
      record {
        rest = ground arith;
        email = ground arith;
        password_hash = ground arith;
        email_verified = ground arith;
        role = ground arith;
        active = ground arith;
        role_exists = ground arith;
        new_address = ground (arith, new_row);
        new_id = ground (arith, new_row);
      }

  -- What `create_user` has done when it answers with a user.
  pub record Created (user : User) (w w' : World) : Type 0 where
    pub row : UserRow
    pub id : user.id ≡ row.id
    pub role : user.role ≡ new.role
    pub role_row : RoleRow
    pub named :
        find
          (λ (r : RoleRow). str_eq r.name (Role.as_str new.role))
          (env.others w.effects w.db).roles
        ≡ some role_row
    -- into the tables that the second statement met, and nothing else
    pub inserted :
        Inserted role_row.id row (env.others (w.effects + 1) (env.others w.effects w.db)) w'.db
    pub counted : w'.effects ≡ w.effects + 1 + 1
    pub spawned : w'.spawned ≡ w.spawned

  pub create_user-Created :
      (w : World) {w' : World} {user : User}
      → db env (create_user env new) w ≡ (ok user, w')
      → Created user w w'
  unfolding create_user
  create_user-Created w e = after_any _ _ (db-eq-ok env _ e) λ role_id v1 e1 r1.
      after_any _ _ r1 λ row v2 e2 r2.
        let (same, last) = pure-eq-ok r2 in
        let ran1 = query-eq-ok env _ e1 in
        let (r, found, same_id, seen) = select_role_id-found new.role _ _ _ _ ran1.outcome in
        let ran2 = query-eq-ok env _ e2 in
        rw (← same, ← last)
          (record {
            row = row;
            id = refl;
            role = refl;
            role_row = r;
            named = found;
            inserted =
                rw (← same_id, seen, ← ran1.counted)
                  (insert_user-Inserted role_id _ _ _ _ ran2.outcome);
            counted = omega (arith, ran1.counted, ran2.counted);
            spawned = ran2.spawned ∙ ran1.spawned;
          })
