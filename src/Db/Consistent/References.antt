-- ===== src/Db/Consistent/References.antt =====
-- The references under the statements of the program.
use rust_generic_user_backen.Base.{
  String, Bool, true, false, ◌≡◌, refl, sym, ap, subst, ◌∙◌, some, List, [], ◌∷◌, ◌==◌, any, all,
  all-imp, all-update, any-update, update, arith, Bool-cases, inl, inr,
}
use rust_generic_user_backen.Core.User.{Uuid, OffsetDateTime}
use rust_generic_user_backen.Db.Schema.{RoleRow, UserRow, OneTimeTokenRow, Db, Statement}
use rust_generic_user_backen.Db.Users.{
  insert_user, update_role, update_active, update_email_verified, update_password,
}
use rust_generic_user_backen.Db.OneTimeTokens.{insert_token, use_token, is_live}
use rust_generic_user_backen.Db.Frames.{
  users, restore, Touches, insert_user-Touches, update_role-Touches, update_active-Touches,
  update_email_verified-Touches, update_password-Touches,
}
use rust_generic_user_backen.Db.Program.{UsersKeep}
use rust_generic_user_backen.Db.Consistent.{has_user, Refers, role_ids, Holds}
use rust_generic_user_backen.Env.{Env}
use rust_generic_user_backen.App.Keeps.{KeepsStatement}

-- A user that is stored stays: no statement takes a row out of `users` or changes its id.
abbrev IsUser : Uuid → Db → Type 0
IsUser id d = has_user d id ≡ true

IsUser-UsersKeep : (env : Env) (id : Uuid) → UsersKeep env (IsUser id)
unfolding insert_user update_role update_active update_email_verified update_password
IsUser-UsersKeep env id = record {
  insert_user_keeps = λ new role_id. record { at = λ now fresh d h. ground (arith, h) };
  update_role_keeps = λ user_id role_id. record {
    at = λ now fresh d h. ground (
      arith,
      h,
      any-update (λ (u : UserRow). u.id == user_id)
          (λ u. record u { role_id = role_id; updated_at = now }) (λ (u : UserRow). u.id == id)
          (λ u. refl) d.users,
    );
  };
  update_active_keeps =
      λ user_id active. record { at = λ now fresh d h. any-update _ _ _ (λ u. refl) d.users ∙ h };
  update_email_verified_keeps =
      λ user_id. record { at = λ now fresh d h. any-update _ _ _ (λ u. refl) d.users ∙ h };
  update_password_keeps =
      λ user_id phc. record { at = λ now fresh d h. any-update _ _ _ (λ u. refl) d.users ∙ h };
}

-- References from a table that the statements on `users` leave alone.
module _ {ℓ} {A : Type ℓ} (rows : Db → List A) (owner : A → Uuid)
    (blind : (r d : Db) → rows (restore users r d) ≡ rows r) where
  Refers-keep :
      {B : Type 0} (stmt : Statement B)
      → Touches users stmt
      → ((id : Uuid) → KeepsStatement (IsUser id) stmt)
      → KeepsStatement (Refers rows owner) stmt
  Refers-keep stmt touches stays = record {
    at = λ now fresh d h.
        let same = sym (blind (stmt now fresh d).1 d) ∙ ap rows (touches.same now fresh d) in
        subst (λ xs. all (λ a. has_user (stmt now fresh d).1 (owner a)) xs ≡ true) (sym same)
          (all-imp _ _ (λ a. (stays (owner a)).at now fresh d) (rows d) h);
  }

  pub Refers-UsersKeep : (env : Env) → UsersKeep env (Refers rows owner)
  Refers-UsersKeep env = record {
    insert_user_keeps = λ new role_id.
        Refers-keep _ (insert_user-Touches env new role_id)
          (λ i. (IsUser-UsersKeep env i).insert_user_keeps new role_id);
    update_role_keeps = λ id role_id.
        Refers-keep _ (update_role-Touches id role_id)
          (λ i. (IsUser-UsersKeep env i).update_role_keeps id role_id);
    update_active_keeps = λ id active.
        Refers-keep _ (update_active-Touches id active)
          (λ i. (IsUser-UsersKeep env i).update_active_keeps id active);
    update_email_verified_keeps = λ id.
        Refers-keep _ (update_email_verified-Touches id)
          (λ i. (IsUser-UsersKeep env i).update_email_verified_keeps id);
    update_password_keeps = λ id phc.
        Refers-keep _ (update_password-Touches id phc)
          (λ i. (IsUser-UsersKeep env i).update_password_keeps id phc);
  }

update-none {ℓ} :
    {A : Type ℓ} (p : A → Bool) (f : A → A) (xs : List A) → any p xs ≡ false → update p f xs ≡ xs
update-none p f [] h = refl
update-none p f (x ∷ xs) h = ground (arith, update-none p f xs)

module _ (env : Env) where
  keep_role :
      (p : UserRow → Bool) (f : UserRow → UserRow) (d : Db)
      → ((u : UserRow) → (f u).role_id ≡ u.role_id)
      → Holds env role_ids d
      → Holds env role_ids (record d { users = update p f d.users })
  keep_role p f d same h = all-update p f _ (λ u pu qu. rw (same u) qu) d.users h

  pub role_ids-UsersKeep : UsersKeep env (Holds env role_ids)
  unfolding insert_user update_role update_active update_email_verified update_password
  role_ids-UsersKeep = record {
    insert_user_keeps = λ new role_id. record { at = λ now fresh d h. ground (arith, h) };
    update_role_keeps = λ user_id role_id. record {
      at = λ now fresh d h. elim (Bool-cases (any (λ (r : RoleRow). r.id == role_id) d.roles)) [
        | inl there ↦ ground (
          arith,
          there,
          all-update (λ (u : UserRow). u.id == user_id)
              (λ u. record u { role_id = role_id; updated_at = now })
              (λ (u : UserRow). any (λ (r : RoleRow). r.id == u.role_id) d.roles) (λ u pu qu. there)
              d.users h,
        )
        | inr missing ↦ ground (
          arith,
          missing,
          h,
          update-none (λ (u : UserRow). u.id == user_id)
              (λ u. record u { role_id = role_id; updated_at = now }) d.users,
        )
      ];
    };
    update_active_keeps = λ id active. record {
      at = λ now fresh d h.
          keep_role (λ (u : UserRow). u.id == id)
            (λ u. record u { is_active = active; updated_at = now }) d (λ u. refl) h;
    };
    update_email_verified_keeps = λ id. record {
      at = λ now fresh d h.
          keep_role (λ (u : UserRow). u.id == id)
            (λ u. record u { email_verified = true; updated_at = now }) d (λ u. refl) h;
    };
    update_password_keeps = λ id phc. record {
      at = λ now fresh d h.
          keep_role (λ (u : UserRow). u.id == id)
            (λ u. record u { password_hash = some phc; updated_at = now }) d (λ u. refl) h;
    };
  }

pub insert_token-Refers :
    (user_id : Uuid) (hash : String) (expires_at now : OffsetDateTime) (fresh : Uuid) (d : Db)
    (rows : List OneTimeTokenRow)
    → all (λ (t : OneTimeTokenRow). has_user d t.user_id) rows ≡ true
    → all
        (λ (t : OneTimeTokenRow). has_user d t.user_id)
        (insert_token user_id hash expires_at now fresh d.users rows).1
      ≡ true
unfolding insert_token
insert_token-Refers user_id hash expires_at now fresh d rows h = ground (arith, h)

pub use_token-Refers :
    (hash : String) (now : OffsetDateTime) (d : Db) (rows : List OneTimeTokenRow)
    → all (λ (t : OneTimeTokenRow). has_user d t.user_id) rows ≡ true
    → all (λ (t : OneTimeTokenRow). has_user d t.user_id) (use_token hash now rows).1 ≡ true
unfolding use_token
use_token-Refers hash now d rows h =
    all-update (is_live hash now) (λ t. record t { used_at = some now })
      (λ (t : OneTimeTokenRow). has_user d t.user_id) (λ t p q. q) rows h
