-- ===== src/Auth/Effects.antt =====
-- How a proof walks along the effects of crates/auth (App/Inversion has the rules).
use rust_generic_user_backen.Base.{◌+◌, String, ◌≡◌, refl, sym}
use rust_generic_user_backen.Base.Result.{ok}
use rust_generic_user_backen.Core.Role.{Role}
use rust_generic_user_backen.Core.User.{Uuid}
use rust_generic_user_backen.Core.Error.{AppError}
use rust_generic_user_backen.Auth.Types.{JwtConfig}
use rust_generic_user_backen.Auth.Password.{hash_password}
use rust_generic_user_backen.Auth.Tokens.{generate_refresh_token}
use rust_generic_user_backen.Auth.Jwt.{claims_at, unix_timestamp, issue}
use rust_generic_user_backen.Env.{Env}
use rust_generic_user_backen.App.{
  World, App, now_utc, new_v4, fill_bytes, generate_salt, lift, pure, draw, ◌>>=◌,
}
use rust_generic_user_backen.App.Inversion.{after_any, after_draw, lift-eq-ok, map_err-ok, tick}

module _ (env : Env) {B : Type 0} {w w' : World} {b : B} where
  pub after_refresh_token :
      (f : String → App AppError B)
      → (generate_refresh_token env >>= f) w ≡ (ok b, w')
      → f (env.hex_encode (env.random_bytes w.effects)) (tick w) ≡ (ok b, w')
  unfolding generate_refresh_token fill_bytes draw pure ◌>>=◌
  after_refresh_token f h = h

  pub after_hash_password :
      {C : Type 0} (plain : String) (f : String → App AppError B)
      → (hash_password env plain >>= f) w ≡ (ok b, w')
      → ((phc : String)
          → env.argon2_hash plain (env.salt w.effects) ≡ ok phc
          → f phc (tick w) ≡ (ok b, w')
          → C)
      → C
  unfolding hash_password generate_salt
  after_hash_password plain f h k = after_any (hash_password env plain) f h λ phc v e r.
      let hashed = lift-eq-ok _ (after_draw env env.salt _ e) in
      k phc (map_err-ok _ _ hashed.0) (rw hashed.1 r)

pub hash_password-run :
    (env : Env) (plain : String) (w : World) {phc : String}
    → env.argon2_hash plain (env.salt w.effects) ≡ ok phc
    → hash_password env plain w ≡ (ok phc, tick w)
unfolding hash_password generate_salt draw lift ◌>>=◌
hash_password-run env plain w e = rw e refl

-- What the two effects of `issue` have made of the world.
pub issue-eq-ok :
    (env : Env) (cfg : JwtConfig) (user_id : Uuid) (role : Role) (w : World) {w' : World}
    {token : String}
    → issue env cfg user_id role w ≡ (ok token, w')
    → (env.jwt_encode cfg.secret (
          claims_at cfg user_id role
            (unix_timestamp (env.app_now w.effects))
            (env.uuid (w.effects + 1)))
        ≡ ok token)
      × (w' ≡ tick (tick w))
unfolding issue now_utc new_v4
issue-eq-ok env cfg user_id role w h =
    let encoded = lift-eq-ok _ (after_draw env env.uuid _ (after_draw env env.app_now _ h)) in
    (map_err-ok _ _ encoded.0, sym encoded.1)
