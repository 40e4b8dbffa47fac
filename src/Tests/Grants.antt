-- ===== src/Tests/Grants.antt =====
-- Access tokens, the store of sessions and the grants of permissions.
use rust_generic_user_backen.Base.{
  ℕ, ◌+◌, ◌*◌, ◌≡◌, refl, Bool, true, false, String, none, some, List, [], ◌∷◌, eq_iff, str_eq,
  ◌==◌, ◌&&◌, arith, if◌then◌else◌, Bool-cases, inl, inr,
}
use rust_generic_user_backen.Base.Int.{ℤ, pos, negsuc, leb_ℤ, mul_i64, ◌*ℤ◌, add_i64, ◌+ℤ◌}
use rust_generic_user_backen.Base.Result.{ok, err}
use rust_generic_user_backen.Base.Text.{◌<>◌, show, trim}
use rust_generic_user_backen.Core.Role
use rust_generic_user_backen.Auth.Types.{Claims}
use rust_generic_user_backen.Auth.Jwt.{issue, claims_at, unix_timestamp}
use rust_generic_user_backen.Auth.Tokens.{generate_refresh_token, hash_refresh_token}
use rust_generic_user_backen.Db.RefreshTokens.{store_refresh_token, insert_refresh_token}
use rust_generic_user_backen.Api.Auth.Tokens.{TokenPair, issue_tokens}
use rust_generic_user_backen.Api.Auth.Tokens.Expiry.{issued_claims, issue_tokens-expiry}
use rust_generic_user_backen.Api.Server.{jwt_config}
use rust_generic_user_backen.Auth.Permissions.{require, load_permissions, as_str}
use rust_generic_user_backen.Db.Permissions.{
  gather, permission_names, role_perms, granted, revoked, distinct, not_in, select_permissions,
  permissions_for, upsert_permission,
}
use rust_generic_user_backen.Db.Permissions.Allowed.{allowed}
use rust_generic_user_backen.Db.RefreshTokens.Store.{
  Call, open_session, look_up, revoke_one, revoke_all, respond_all,
}
use rust_generic_user_backen.Db.RefreshTokens.Refine.{view, perform_all, perform_all-respond_all}
use rust_generic_user_backen.Env.{Env}
use rust_generic_user_backen.App.{
  lift, pure, draw, map_err, db, query, settle, now_utc, new_v4, fill_bytes, ◌>>=◌,
}
use rust_generic_user_backen.App.Inversion.{with_state, tick}
use rust_generic_user_backen.Api.Admin.{GrantPermReq, authorize, grant_permission}
use rust_generic_user_backen.Api.Admin.Granted.{IsName, grant_permission-decides}
use rust_generic_user_backen.Api.Extract.{readable, VerifiedUser, auth_user}
use rust_generic_user_backen.Api.Extract.Bearer.{issue-auth_user}
use rust_generic_user_backen.Tests.Toy.{codes, digits, toy, alone, state, tables, world}

abbrev calls : List Call
calls =
    (pos 0, 20, open_session 1 "h" (pos 9))
    ∷ (pos 1, 21, revoke_all 1)
    ∷ (pos 2, 22, look_up "h")
    ∷ (pos 3, 23, revoke_one "65")
    ∷ []

perform_all-respond_all_example :
    ((perform_all calls tables).0 ≡ (respond_all calls (view tables)).0)
    × (view (perform_all calls tables).1 ≡ (respond_all calls (view tables)).1)
perform_all-respond_all_example = perform_all-respond_all calls tables

abbrev issued_pair : TokenPair
issued_pair = record { access_token = "s.1"; refresh_token = "2"; access_expires_in = pos 900 }

issue_tokens_run : (issue_tokens toy state 1 Role.admin none world).0 ≡ ok issued_pair
unfolding issue_tokens issue new_v4 claims_at unix_timestamp now_utc draw lift
    generate_refresh_token fill_bytes hash_refresh_token store_refresh_token insert_refresh_token
    pure map_err db query settle ◌>>=◌ mul_i64 ◌*ℤ◌ ◌+ℤ◌ codes digits show
issue_tokens_run = refl

issued_second : unix_timestamp (toy.app_now 0) ≡ pos 0
unfolding unix_timestamp
issued_second = refl

issued_built : state.jwt ≡ jwt_config state.settings
unfolding jwt_config
issued_built = refl

issue_tokens-expiry_example :
    (toy.jwt_encode "s" (issued_claims toy state 1 Role.admin 0 world) ≡ ok "s.1")
    × ((issued_claims toy state 1 Role.admin 0 world).exp ≡ pos (0 + 60 * 15))
    × (issued_pair.access_expires_in ≡ pos (60 * 15))
issue_tokens-expiry_example =
    issue_tokens-expiry toy state 1 Role.admin none world _ issued_pair 0 15 issued_built refl
      issued_second (omega arith)
      (with_state (issue_tokens toy state 1 Role.admin none) world issue_tokens_run)

-- A library that can encode the claims of one token.
abbrev only : Claims
only = record {
  sub = 1;
  role = "admin";
  iss = "generic-auth";
  iat = pos 0;
  exp = pos 900;
  jti = 101;
}

is_pos : ℕ → ℤ → Bool
is_pos n (pos m) = m == n
is_pos n (negsuc m) = false

is_pos_sound : (n : ℕ) (a : ℤ) → is_pos n a ≡ true → a ≡ pos n
unfolding is_pos
is_pos_sound n (pos m) h = ground (arith, h)
is_pos_sound n (negsuc m) h = cc

same_claims : Claims → Bool
unfolding is_pos
same_claims c =
    c.sub == 1
    && str_eq c.role "admin"
    && str_eq c.iss "generic-auth"
    && is_pos 0 c.iat
    && is_pos 900 c.exp
    && c.jti == 101

same_claims_sound : (c : Claims) → same_claims c ≡ true → c ≡ only
unfolding same_claims
same_claims_sound c h =
    let sub : c.sub ≡ 1 = ground (arith, h) in
    let role : c.role ≡ "admin" = ground (arith, h, eq_iff c.role "admin") in
    let iss : c.iss ≡ "generic-auth" = ground (arith, h, eq_iff c.iss "generic-auth") in
    let iat : c.iat ≡ pos 0 = is_pos_sound 0 c.iat (ground (arith, h)) in
    let exp : c.exp ≡ pos 900 = is_pos_sound 900 c.exp (ground (arith, h)) in
    let jti : c.jti ≡ 101 = ground (arith, h) in
    λ i. record { sub = sub i; role = role i; iss = iss i; iat = iat i; exp = exp i; jti = jti i }

abbrev codec : Env
codec = record toy {
  jwt_encode = λ secret claims. if same_claims claims then ok "t" else err "no";
  jwt_decode = λ secret issuer now token. if str_eq token "t" then ok only else err "invalid";
}

codec_law :
    (secret token : String) (claims : Claims) (now : ℕ)
    → codec.jwt_encode secret claims ≡ ok token
    → leb_ℤ (pos now) claims.exp ≡ true
    → codec.jwt_decode secret claims.iss (pos now) token ≡ ok claims
codec_law secret token claims now encoded early = elim (Bool-cases (same_claims claims)) [
  | inl t ↦
      let same : token ≡ "t" = ground (arith, t, encoded) in
      rw (same, same_claims_sound claims t) refl
  | inr f ↦ ground (arith, f, encoded)
]

issue_run : (issue codec state.jwt 1 Role.admin world).0 ≡ ok "t"
unfolding issue now_utc new_v4 draw lift map_err ◌>>=◌ claims_at unix_timestamp mul_i64 add_i64 ◌+ℤ◌
    ◌*ℤ◌ Role.as_str same_claims is_pos
issue_run = refl

issue-auth_user_example :
    auth_user codec state (some (readable ("Bearer " <> "t"))) world
    ≡ (ok (record { user_id = 1; role = Role.admin }), tick world)
unfolding trim claims_at unix_timestamp mul_i64 add_i64 ◌+ℤ◌ ◌*ℤ◌
issue-auth_user_example =
    issue-auth_user codec state 1 Role.admin world _ world "t" 0 codec_law refl
      (with_state (issue codec state.jwt 1 Role.admin) world issue_run) refl refl

abbrev admin : VerifiedUser
admin = record { user_id = 1; role = Role.admin }

abbrev grant : GrantPermReq
grant = record { permission = "users.read"; granted = true }

read-IsName : IsName "users.read" tables
read-IsName = (
  record { id = 1; name = "users.read" },
  record { found = refl; alone = λ k h. ground (arith, h) },
)

grant_run : (grant_permission toy admin 2 grant world).0 ≡ ok 204
unfolding grant_permission authorize load_permissions permissions_for select_permissions gather
    permission_names role_perms granted revoked distinct not_in require as_str upsert_permission
    lift pure map_err db query settle ◌>>=◌
grant_run = refl

grant_permission-decides_example :
    allowed 2 "users.read" (grant_permission toy admin 2 grant world).1.db ≡ true
grant_permission-decides_example =
    grant_permission-decides toy admin 2 grant world _ 204 (alone _) read-IsName
      (with_state (grant_permission toy admin 2 grant) world grant_run)
