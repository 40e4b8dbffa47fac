-- ===== src/Api/Extract/Verified.antt =====
-- Whom the extractors let through.
use rust_generic_user_backen.Base.{
  ◌+◌, String, ◌≡◌, refl, sym, ap, ◌∙◌, Option, some, true, unwrap_or, arith, ◌==◌,
}
use rust_generic_user_backen.Base.Result.{ok}
use rust_generic_user_backen.Base.Text.{strip_prefix, trim}
use rust_generic_user_backen.Core.Role
use rust_generic_user_backen.Core.Role.{Role}
use rust_generic_user_backen.Core.User.{Uuid}
use rust_generic_user_backen.Auth.Types.{Claims}
use rust_generic_user_backen.Auth.Jwt.{verify, unix_timestamp}
use rust_generic_user_backen.Db.Schema.{UserRow}
use rust_generic_user_backen.Db.Users.{find_by_id, select_by_id, select_user, user_of}
use rust_generic_user_backen.Db.Users.Lookup.{select_user-Selected}
use rust_generic_user_backen.Env.{Env}
use rust_generic_user_backen.App.{World, now_utc}
use rust_generic_user_backen.App.Inversion.{
  after_any, after_read, after_ok_or, after_ok_or_map, after_draw, after_raise_if, lift-eq-ok,
  map_err-ok, pure-eq-ok, tick,
}
use rust_generic_user_backen.Api.State.{AppState}
use rust_generic_user_backen.Api.Extract.{
  HeaderValue, to_str, AuthUser, VerifiedUser, auth_user, verified_user, find_user_by_id,
}

module _ (env : Env) (state : AppState) (authorization : Option HeaderValue) where
  -- The header has a token that decodes, at the time of the application's clock.
  pub record Authenticated (w : World) (id : Uuid) (role : Role) : Type 0 where
    pub header : String
    pub present : to_str authorization ≡ some header
    pub token : String
    pub bearer : strip_prefix "Bearer " header ≡ some token
    pub claims : Claims
    pub decoded :
        env.jwt_decode state.jwt.secret state.jwt.issuer
          (unix_timestamp (env.app_now w.effects))
          (trim token)
        ≡ ok claims
    pub subject : claims.sub ≡ id
    pub as_role : unwrap_or (Role.parse claims.role) Role.user ≡ role

  verify-eq-ok :
      (token : String) (w : World) {v : World} {claims : Claims}
      → verify env state.jwt token w ≡ (ok claims, v)
      → (env.jwt_decode state.jwt.secret state.jwt.issuer
            (unix_timestamp (env.app_now w.effects))
            token
          ≡ ok claims)
        × (v ≡ tick w)
  unfolding verify now_utc
  verify-eq-ok token w e =
      let (decoded, same) = lift-eq-ok _ (after_draw env env.app_now _ e) in
      (map_err-ok _ _ decoded, sym same)

  pub auth_user-Authenticated :
      (w : World) {w' : World} {user : AuthUser}
      → auth_user env state authorization w ≡ (ok user, w')
      → Authenticated w user.user_id user.role × (w' ≡ tick w)
  unfolding auth_user
  auth_user-Authenticated w e = after_ok_or _ _ _ e λ header present r1.
      after_ok_or _ _ _ r1 λ token bearer r2. after_any _ _ r2 λ claims v decoding r3.
        let (decoded, ticked) = verify-eq-ok (trim token) w decoding in
        let (same, last) = pure-eq-ok r3 in
        (
          record {
            header = header;
            present = present;
            token = token;
            bearer = bearer;
            claims = claims;
            decoded = decoded;
            subject = ap (λ (u : AuthUser). u.user_id) same;
            as_role = ap (λ (u : AuthUser). u.role) same;
          },
          sym last ∙ ticked,
        )

  -- The user is authenticated, and the tables have it as a user whose e-mail address is verified.
  pub record Verified (w : World) (user : VerifiedUser) (w' : World) : Type 0 where
    pub authenticated : Authenticated w user.user_id user.role
    pub row : UserRow
    pub same_id : (row.id == user.user_id) ≡ true
    pub name : String
    pub found :
        select_user (λ u. u.id == user.user_id) (env.others (w.effects + 1) w.db) ≡ some (row, name)
    pub email_verified : row.email_verified ≡ true
    pub same_db : w'.db ≡ env.others (w.effects + 1) w.db
    pub counted : w'.effects ≡ w.effects + 1 + 1

  -- The gate of the administrators' routes lets a request through only if its header has a token
  -- that decodes now and whose subject is, in the tables, a user with a verified e-mail address. It
  -- changes no table.
  pub verified_user-Verified :
      (w : World) {w' : World} {user : VerifiedUser}
      → verified_user env state authorization w ≡ (ok user, w')
      → Verified w user w'
  unfolding verified_user find_user_by_id find_by_id select_by_id user_of
  verified_user-Verified w {w'} e = after_any _ _ e λ auth v authenticating r1.
      let (authenticated, ticked) = auth_user-Authenticated w authenticating in
      after_read env (tick w) _ _ (λ now fresh d. refl) _ (rw ticked at r1)
        λ v2 same_db counted r2. after_ok_or_map user_of _ _ _ r2 λ found same r3.
          let (email_verified, r4) = after_raise_if _ _ _ r3 in
          let (passed, last) = pure-eq-ok r4 in
          rw (← passed, ← last)
            record {
              authenticated = authenticated;
              row = found.0;
              same_id = (select_user-Selected _ _ same).passes;
              name = found.1;
              found = same;
              email_verified = ground (arith, email_verified);
              same_db = same_db;
              counted = counted;
            }
