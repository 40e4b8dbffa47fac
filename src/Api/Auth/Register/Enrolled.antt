-- ===== src/Api/Auth/Register/Enrolled.antt =====
-- What a registration that returned has seen and done.
use rust_generic_user_backen.Base.{◌+◌, String, ◌≡◌, refl, none, some, true, false, ◌&&◌, arith}
use rust_generic_user_backen.Base.Int.{ℤ, pos, ◌+ℤ◌, mul_i64}
use rust_generic_user_backen.Base.Result
use rust_generic_user_backen.Base.Result.{Result, ok, err}
use rust_generic_user_backen.Core.Role.{user}
use rust_generic_user_backen.Core.Error.{from_validation_errors}
use rust_generic_user_backen.Core.User.{User}
use rust_generic_user_backen.Auth.Effects.{after_hash_password, after_refresh_token, issue-eq-ok}
use rust_generic_user_backen.Auth.Jwt.{issue, claims_at, unix_timestamp}
use rust_generic_user_backen.Auth.Tokens.{hash_refresh_token}
use rust_generic_user_backen.Db.RefreshTokens.{store_refresh_token}
use rust_generic_user_backen.Db.Users.{NewUser}
use rust_generic_user_backen.Db.Users.Created.{Created, create_user-Created}
use rust_generic_user_backen.Env.{Env}
use rust_generic_user_backen.App.{World, now_utc}
use rust_generic_user_backen.App.Inversion.{
  after_any, after_query, after_draw, after_lift, pure-eq-ok, tick,
}
use rust_generic_user_backen.Api.Validate.{check_account}
use rust_generic_user_backen.Api.State.{AppState}
use rust_generic_user_backen.Api.Auth.Tokens.{TokenPair, days}
use rust_generic_user_backen.Api.Auth.Tokens.Issued.{Inserted, insert_refresh_token-Inserted}
use rust_generic_user_backen.Api.Auth.Register.{RegisterReq, app_port, register_user}

accepted :
    (env : Env) (email password : String) {checked : Unit}
    → Result.map_err from_validation_errors (check_account env email password) ≡ ok checked
    → (env.valid_email email && env.valid_min_length 8 password) ≡ true
unfolding check_account
accepted env email password h = ground (arith, h)

module _ (env : Env) (state : AppState) (body : RegisterReq) where
  -- The account that a registration asks for.
  abbrev pub new_account : String → NewUser
  new_account phc = record {
    email = some body.email;
    password_hash = some phc;
    display_name = body.display_name;
    role = user;
    email_verified = false;
  }

  pub record Enrolled (ttl_min ttl_days : ℤ) (w : World) (pair : TokenPair) (w' : World)
      : Type 0 where
    pub valid : (env.valid_email body.email && env.valid_min_length 8 body.password) ≡ true
    pub phc : String
    pub hashed : env.argon2_hash body.password (env.salt w.effects) ≡ ok phc
    pub account : User
    pub v : World
    pub created : Created env (new_account phc) account (tick w) v
    pub encoded :
        env.jwt_encode state.jwt.secret (
          claims_at state.jwt account.id user
            (unix_timestamp (env.app_now v.effects))
            (env.uuid (v.effects + 1)))
        ≡ ok pair.access_token
    pub lifetime : pair.access_expires_in ≡ mul_i64 ttl_min (pos 60)
    pub inserted :
        Inserted account.id
          (hash_refresh_token env pair.refresh_token)
          (env.app_now (v.effects + 1 + 1 + 1) +ℤ days ttl_days)
          (env.others (v.effects + 1 + 1 + 1 + 1) v.db)
          w'.db

  -- A registration that returns a pair had an e-mail address and a password that pass their checks.
  -- It has inserted an active user with the role of a plain user, the address, which no account
  -- had before, not verified, and the hash of the password; the access token is for that user, and
  -- the refresh token is inserted for it, unrevoked, under a hash that was not in the table.
  pub register_user-Enrolled :
      (ttl_min ttl_days : ℤ) (w w' : World) (pair : TokenPair)
      → register_user env (app_port env state) body ttl_min ttl_days w ≡ (ok pair, w')
      → Enrolled ttl_min ttl_days w pair w'
  unfolding register_user app_port now_utc store_refresh_token
  register_user-Enrolled ttl_min ttl_days w w' pair e = after_lift _ _ e λ checked c r0.
      after_hash_password env body.password _ r0 λ phc hashed r1.
        after_any _ _ r1 λ account v creating r2.
          let created = create_user-Created env (new_account phc) (tick w) creating in
          after_any (issue env state.jwt account.id account.role) _ r2 λ access v2 e2 r3.
            let (encoded, same) = issue-eq-ok env state.jwt account.id account.role v e2 in
            let r4 = after_draw env env.app_now _ (after_refresh_token env _ (rw same at r3)) in
            after_any _ _ r4 λ _ v3 storing r5. after_query env _ _ storing λ _ v4 ran r6.
              let (stored, last) = pure-eq-ok r5 in
              rw (← stored, ← last, ← (pure-eq-ok r6).1)
                (record {
                  valid = accepted env body.email body.password c;
                  phc = phc;
                  hashed = hashed;
                  account = account;
                  v = v;
                  created = created;
                  encoded = rw created.role at encoded;
                  lifetime = refl;
                  inserted = insert_refresh_token-Inserted account.id _ _ none _ _ _ ran.outcome;
                })
