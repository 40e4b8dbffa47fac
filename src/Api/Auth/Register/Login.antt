-- ===== src/Api/Auth/Register/Login.antt =====
-- Login after registration.
use rust_generic_user_backen.Base.{
  ℕ, Bool, String, ◌≡◌, refl, ap, ◌∙◌, none, some, true, List, [], ◌∷◌, ◌==◌, arith, any, find,
  eq_iff, inl, inr, Bool-cases,
}
use rust_generic_user_backen.Base.Int.{ℤ, pos, ◌+ℤ◌, mul_i64}
use rust_generic_user_backen.Base.Result.{ok}
use rust_generic_user_backen.Core.Role.{Role}
use rust_generic_user_backen.Core.User.{Uuid, OffsetDateTime, User}
use rust_generic_user_backen.Auth.Effects.{after_hash_password}
use rust_generic_user_backen.Db.Schema.{Db, RoleRow, UserRow}
use rust_generic_user_backen.Db.Consistent.{has_user}
use rust_generic_user_backen.Db.Users.{NewUser, select_user, role_name, same_email}
use rust_generic_user_backen.Db.Users.Created.{Inserted, create_user-Created}
use rust_generic_user_backen.Db.RefreshTokens.{store_refresh_token}
use rust_generic_user_backen.Db.Program.{refresh_tokens_ignored}
use rust_generic_user_backen.Api.Router.AuthKeeps.{auth_functions}
use rust_generic_user_backen.Env.{Env, clean}
use rust_generic_user_backen.App.{World, App, now_utc, pure, ◌>>=◌, ◌>>◌}
use rust_generic_user_backen.Core.Error.{AppError}
use rust_generic_user_backen.Auth.Jwt.{issue}
use rust_generic_user_backen.Auth.Tokens.{generate_refresh_token, hash_refresh_token}
use rust_generic_user_backen.Api.Auth.Tokens.{days}
use rust_generic_user_backen.App.Keeps.{OthersKeep, Keeps, Keeps-query, run-keeps}
use rust_generic_user_backen.App.Forward.{seen}
use rust_generic_user_backen.App.Inversion.{after_any, after_lift, tick}
use rust_generic_user_backen.Api.State.{AppState}
use rust_generic_user_backen.Api.Auth.Tokens.{TokenPair}
use rust_generic_user_backen.Api.Auth.Tokens.Issuable.{Issuable}
use rust_generic_user_backen.Api.Auth.Register.{RegisterReq, app_port, register_user}
use rust_generic_user_backen.Api.Auth.Register.Enrolled.{new_account}
use rust_generic_user_backen.Api.Auth.Session.{login}
use rust_generic_user_backen.Api.Auth.Session.Credentials.{account}
use rust_generic_user_backen.Api.Auth.Session.Returns.{login-returns}

find-of_any {ℓ} :
    {A : Type ℓ} (p : A → Bool) (xs : List A) → any p xs ≡ true → (x : A) × (find p xs ≡ some x)
find-of_any p [] h = ground (arith, h)
find-of_any p (x ∷ xs) h = elim (Bool-cases (p x)) [
  | inl t ↦ (x, rw t refl)
  | inr f ↦ let (y, e) = find-of_any p xs (ground (arith, f)) in (y, rw f e)
]

-- The first row passes the test, and has a role.
first-selected :
    (p : UserRow → Bool) (d : Db) {row : UserRow} {users : List UserRow} {name : String}
    → d.users ≡ row ∷ users
    → p row ≡ true
    → role_name d row.role_id ≡ some name
    → select_user p d ≡ some (row, name)
unfolding select_user
first-selected p d first passes named = ground (arith, first, passes, named)

-- The user that was inserted last is the account with its address.
account-of_Inserted :
    (env : Env) (new : NewUser) (email : String) {role_id : ℕ} {row : UserRow} {before after : Db}
    → new.email ≡ some email
    → Inserted env new role_id row before after
    → (name : String) × (account env email after ≡ some (row, name))
unfolding same_email
account-of_Inserted env new email {role_id} {row} {before} {after} address i =
    let there = i.role_exists in
    let (role, named) = find-of_any (λ (r : RoleRow). r.id == role_id) before.roles there in
    let e = i.email ∙ address in
    let same : same_email env row.email (some email) ≡ true =
      rw e ((eq_iff (env.citext_key email) (env.citext_key email)).1 refl) in
    let name : role_name after row.role_id ≡ some role.name = rw (i.rest, i.role, named) refl in
    (
      role.name,
      first-selected (λ u. same_email env u.email (some email)) after
          (ap (λ (d : Db). d.users) i.rest) same name,
    )

module _ (env : Env) (state : AppState) (body : RegisterReq) where
  -- The account of a row.
  abbrev IsAccount : UserRow → String → Db → Type 0
  IsAccount row name d = account env body.email d ≡ some (row, name)

  store_refresh_token-Keeps :
      (row : UserRow) (name : String)
      → OthersKeep env (IsAccount row name)
      → (id : Uuid) (hash : String) (expires_at : OffsetDateTime)
      → Keeps (IsAccount row name) (store_refresh_token env id hash expires_at none)
  unfolding store_refresh_token select_user
  store_refresh_token-Keeps row name others id hash expires_at = Keeps-query env _ others (
      (refresh_tokens_ignored (IsAccount row name) (λ r d h. h)).insert_refresh_token_keeps id hash
        expires_at none)

  -- What a registration does once the user is created.
  abbrev issue_pair : User → ℤ → ℤ → App AppError TokenPair
  issue_pair user ttl_min ttl_days = do
    access ← issue env state.jwt user.id user.role
    refresh ← generate_refresh_token env
    now ← now_utc env
    (app_port env state).store_refresh_token user.id (hash_refresh_token env refresh)
        (now +ℤ days ttl_days)
    pure (record {
      access_token = access;
      refresh_token = refresh;
      access_expires_in = mul_i64 ttl_min (pos 60);
    })

  issue_pair-Keeps :
      (row : UserRow) (name : String)
      → OthersKeep env (IsAccount row name)
      → (user : User) (ttl_min ttl_days : ℤ)
      → Keeps (IsAccount row name) (issue_pair user ttl_min ttl_days)
  unfolding app_port
  issue_pair-Keeps row name others user ttl_min ttl_days =
      search (auth_functions, store_refresh_token-Keeps, others) depth 30

  -- What a registration that returned has left for a login.
  record Registered (w : World) (w' : World) : Type 0 where
    pub row : UserRow
    pub name : String
    pub phc : String
    pub salt : String
    pub hashed : env.argon2_hash body.password salt ≡ ok phc
    pub found : IsAccount row name w'.db
    pub stored : row.password_hash ≡ some phc
    pub active : row.is_active ≡ true

  register_user-Registered :
      (ttl_min ttl_days : ℤ) (w w' : World) (pair : TokenPair)
      → ((row : UserRow) (name : String) → OthersKeep env (IsAccount row name))
      → register_user env (app_port env state) body ttl_min ttl_days w ≡ (ok pair, w')
      → Registered w w'
  unfolding register_user app_port
  register_user-Registered ttl_min ttl_days w w' pair others e = after_lift _ _ e λ checked c r0.
      after_hash_password env body.password _ r0 λ phc hashed r1.
        after_any _ _ r1 λ user v creating r2.
          let created =
            create_user-Created env (new_account env state body phc) (tick w) creating in
          let (name, found) =
            account-of_Inserted env (new_account env state body phc) body.email refl
              created.inserted in
          record {
            row = created.row;
            name = name;
            phc = phc;
            salt = env.salt w.effects;
            hashed = hashed;
            found =
                run-keeps (IsAccount created.row name) (issue_pair user ttl_min ttl_days)
                  (issue_pair-Keeps _ _ (others created.row name) user ttl_min ttl_days) r2 found;
            stored = created.inserted.password_hash;
            active = created.inserted.active;
          }

  -- Who has registered can log in: after a registration that returned a pair, a login with the same
  -- e-mail address and password returns a pair, if a hash that argon2 makes of a password parses and
  -- matches that password, the query of the login is answered, a pair can be issued, and the other
  -- requests keep the users and which account the address has.
  pub register_user-login :
      (ttl_min ttl_days : ℤ) (w w' : World) (pair : TokenPair)
      → ((plain salt phc : String)
          → env.argon2_hash plain salt ≡ ok phc
          → (env.phc_error phc ≡ none) × (env.argon2_matches plain phc ≡ true))
      → ((row : UserRow) (name : String) → OthersKeep env (IsAccount row name))
      → ((id : Uuid) → OthersKeep env (λ d. has_user d id ≡ true))
      → env.fault w'.effects ≡ clean
      → ((id : Uuid) (role : Role) → Issuable env state id role (seen env w'))
      → register_user env (app_port env state) body ttl_min ttl_days w ≡ (ok pair, w')
      → (again : TokenPair) × (w'' : World) × (login env state
            (record { email = body.email; password = body.password })
            w'
          ≡ (ok again, w''))
  register_user-login ttl_min ttl_days w w' pair argon2 others users answered issuable e =
      let r = register_user-Registered ttl_min ttl_days w w' pair others e in
      let (parses, matches) = argon2 body.password r.salt r.phc r.hashed in
      login-returns env state _ w' r.row r.name r.phc (users r.row.id) answered
        ((others r.row r.name).at w'.effects w'.db r.found) r.stored parses matches r.active
        (issuable r.row.id _)
