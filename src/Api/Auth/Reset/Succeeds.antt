-- ===== src/Api/Auth/Reset/Succeeds.antt =====
-- When a password reset succeeds.
use rust_generic_user_backen.Base.{◌+◌, String, ◌≡◌, refl, ap, ◌∙◌, some, true, find}
use rust_generic_user_backen.Base.Result
use rust_generic_user_backen.Base.Result.{Result, ok}
use rust_generic_user_backen.Core.Error.{bad_request, from_validation_errors}
use rust_generic_user_backen.Core.User.{Uuid, OffsetDateTime}
use rust_generic_user_backen.Auth.Password.{hash_password}
use rust_generic_user_backen.Auth.Effects.{hash_password-run}
use rust_generic_user_backen.Db.Schema.{OneTimeTokenRow, Db}
use rust_generic_user_backen.Db.OneTimeTokens.{
  is_live, use_token, use_reset, consume_password_reset_token,
}
use rust_generic_user_backen.Db.RefreshTokens.{revoke_all_refresh_tokens, update_all_revoked}
use rust_generic_user_backen.Db.Users.{update_password_hash, update_password}
use rust_generic_user_backen.Env.{Env, clean}
use rust_generic_user_backen.App.{World, pure, lift, ok_or, db}
use rust_generic_user_backen.App.Forward.{bind-ok, query-clean}
use rust_generic_user_backen.App.Inversion.{tick}
use rust_generic_user_backen.Api.Validate.{check_reset}
use rust_generic_user_backen.Api.Auth.Tokens.{sha256_hex}
use rust_generic_user_backen.Api.Auth.Reset.{
  ResetPasswordReq, app_port, perform_password_reset, reset_password,
}
use rust_generic_user_backen.Api.Auth.Reset.Recovery.{Recovered, reset_password-Recovered}
use rust_generic_user_backen.Api.Auth.Reset.Refused.{long_enough}

-- The world after a statement that is answered and leaves these tables.
abbrev after : Env → (OffsetDateTime → Uuid → Db → Db) → World → World
after env change w = record w {
  db = change (env.db_now w.effects) (env.uuid w.effects) (env.others w.effects w.db);
  effects = w.effects + 1;
}

abbrev consumed : Env → String → World → World
consumed env hash = after env (λ now fresh d. (use_reset hash now fresh d).1)

using_reset :
    (hash : String) (now : OffsetDateTime) (fresh : Uuid) (d : Db) {row : OneTimeTokenRow}
    → find (is_live hash now) d.password_reset_tokens ≡ some row
    → use_reset hash now fresh d ≡ (ok (some row.user_id), (use_reset hash now fresh d).1)
unfolding use_reset use_token
using_reset hash now fresh d h = rw h refl

module _ (env : Env) (id : Uuid) (w : World) (answered : env.fault w.effects ≡ clean) where
  updating :
      (phc : String)
      → (v : World) × (db env (update_password_hash env id phc) w ≡ (ok tt, v))
        × (v.effects ≡ w.effects + 1)
  unfolding update_password_hash update_password
  updating phc = (_, query-clean env (update_password id phc) w answered refl, refl)

  revoking : (v : World) × (db env (revoke_all_refresh_tokens env id) w ≡ (ok tt, v))
  unfolding revoke_all_refresh_tokens update_all_revoked
  revoking = (_, query-clean env (update_all_revoked id) w answered refl)

module _ (env : Env) (body : ResetPasswordReq) where
  -- A password reset succeeds, with all that it does then, when its statements are answered, the
  -- new password has the length asked for, the password can be hashed, and the hash of the token is
  -- stored in a row that is unused and not expired.
  pub reset_password-succeeds :
      (w : World) (row : OneTimeTokenRow) (phc : String)
      → env.fault w.effects ≡ clean
      → env.fault (w.effects + 1 + 1) ≡ clean
      → env.fault (w.effects + 1 + 1 + 1) ≡ clean
      → env.valid_min_length 8 body.new_password ≡ true
      → find
          (is_live (sha256_hex env body.token) (env.db_now w.effects))
          (env.others w.effects w.db).password_reset_tokens
        ≡ some row
      → env.argon2_hash body.new_password (env.salt (w.effects + 1)) ≡ ok phc
      → (w' : World) × (reset_password env body w ≡ (ok 204, w')) × Recovered env body w w'
  unfolding reset_password perform_password_reset app_port consume_password_reset_token lift ok_or
      pure
  reset_password-succeeds w row phc a1 a2 a3 long live hashed =
      let v1 = consumed env (sha256_hex env body.token) w in
      let (v2, updated, counted) = updating env row.user_id (tick v1) a2 phc in
      let (v3, revoked) = revoking env row.user_id v2 (rw counted a3) in
      let performed =
        bind-ok (lift (Result.map_err from_validation_errors (check_reset env body.new_password))) _
          w (ap (λ r. (r, w)) (long_enough env body.new_password long))
        ∙ bind-ok _ _ w (query-clean env _ w a1 (using_reset _ _ _ _ live))
        ∙ bind-ok (ok_or (some row.user_id) (bad_request "invalid or expired token")) _ v1 refl
        ∙ bind-ok (hash_password env body.new_password) _ v1
            (hash_password-run env body.new_password v1 hashed)
        ∙ bind-ok _ _ (tick v1) updated
        ∙ bind-ok _ _ v2 revoked in
      let run =
        bind-ok (perform_password_reset env (app_port env) body) _ w {a = tt} {v = v3} performed in
      (v3, run, reset_password-Recovered env body w run)
