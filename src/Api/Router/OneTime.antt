-- ===== src/Api/Router/OneTime.antt =====
-- Reset tokens and verification tokens across several requests.
use mathlib.Core.Option
use rust_generic_user_backen.Base.{ℕ, String, ◌≡◌, ap, subst, true, some, List, arith}
use rust_generic_user_backen.Base.Result.{ok}
use rust_generic_user_backen.Core.User.{Uuid, OffsetDateTime}
use rust_generic_user_backen.Db.Schema.{OneTimeTokenRow}
use rust_generic_user_backen.Db.OneTimeTokens.{use_token, use_reset, use_verification}
use rust_generic_user_backen.Db.OneTimeTokens.Used.{
  IsUsed, unique, not_live, use_token-IsUsed, ResetIsUsed, ResetIsUnique, VerificationIsUsed,
  VerificationIsUnique, ResetIsUsed-KeptByProgram, VerificationIsUsed-KeptByProgram,
}
use rust_generic_user_backen.Env.{Env}
use rust_generic_user_backen.App.{World}
use rust_generic_user_backen.App.Inversion.{with_state, ok-injective}
use rust_generic_user_backen.App.Keeps.{OthersKeep, Ran-keeps}
use rust_generic_user_backen.Api.State.{AppState}
use rust_generic_user_backen.Api.Auth.Tokens.{sha256_hex}
use rust_generic_user_backen.Api.Auth.Reset.{ResetPasswordReq, reset_password}
use rust_generic_user_backen.Api.Auth.Reset.Recovery.{reset_password-Trace}
use rust_generic_user_backen.Api.Auth.VerifyEmail.{verify_email}
use rust_generic_user_backen.Api.Auth.VerifyEmail.Confirmed.{verify_email-Trace}
use rust_generic_user_backen.Api.Router.{Request, serve_all}
use rust_generic_user_backen.Api.Router.Keeps.{serve_all-keeps}

-- The use of a token that is found, and of one that is used already.
module _ (hash : String) (now : OffsetDateTime) (rows : List OneTimeTokenRow) where
  found-IsUsed :
      (user_id : Uuid)
      → unique hash rows ≡ true
      → (use_token hash now rows).0 ≡ some user_id
      → IsUsed hash (use_token hash now rows).1
  unfolding use_token
  found-IsUsed user_id u h =
      let (t, live, owner) = (Option.map-eq-some_iff _ _).0 h in
      use_token-IsUsed hash now rows t u live

  used-refused :
      (user_id : Uuid) → IsUsed hash rows → ¬ ((use_token hash now rows).0 ≡ some user_id)
  unfolding use_token
  used-refused user_id used h = let e = not_live hash now rows used.1 in ground (arith, e, h)

module _ (env : Env) (state : AppState) where
  reset_password-IsUsed :
      (body : ResetPasswordReq) (w w' : World) (code : ℕ)
      → OthersKeep env (ResetIsUnique (sha256_hex env body.token))
      → OthersKeep env (ResetIsUsed (sha256_hex env body.token))
      → ResetIsUnique (sha256_hex env body.token) w.db
      → reset_password env body w ≡ (ok code, w')
      → ResetIsUsed (sha256_hex env body.token) w'.db
  unfolding use_reset
  reset_password-IsUsed body w w' code uniques others u e =
      let hash = sha256_hex env body.token in
      let kept = ResetIsUsed-KeptByProgram env hash in
      let t = reset_password-Trace env body w e in
      let out = t.consuming.outcome in
      let used = subst (ResetIsUsed hash) (ap (λ p. p.1) out) (
        found-IsUsed hash (env.db_now w.effects) _ t.user_id (uniques.at w.effects w.db u)
          (ok-injective (ap (λ p. p.0) out))) in
      let updated =
        Ran-keeps (ResetIsUsed hash) env others _ (kept.users_keep.update_password_keeps _ _)
          t.updating used in
      Ran-keeps (ResetIsUsed hash) env others _
        (kept.refresh_tokens_keep.update_all_revoked_keeps _) t.revoking updated

  reset_password-refused :
      (body : ResetPasswordReq) (w : World) (code : ℕ)
      → OthersKeep env (ResetIsUsed (sha256_hex env body.token))
      → ResetIsUsed (sha256_hex env body.token) w.db
      → ¬ ((reset_password env body w).0 ≡ ok code)
  unfolding use_reset
  reset_password-refused body w code others used e =
      let t = reset_password-Trace env body w (with_state (reset_password env body) w e) in
      used-refused (sha256_hex env body.token) (env.db_now w.effects) _ t.user_id
        (others.at w.effects w.db used) (ok-injective (ap (λ p. p.0) t.consuming.outcome))

  -- A reset token is good for one password reset. After one that succeeded, and after any further
  -- requests to any routes, a reset with the same token does not succeed, whatever password it
  -- brings, if the hash of the token stands in one row at most and the other requests keep that so
  -- and keep a used hash used.
  pub reset_password-single_use :
      (body : ResetPasswordReq) (w w' : World) (code again : ℕ) (new_password : String)
      (rs : List Request)
      → OthersKeep env (ResetIsUnique (sha256_hex env body.token))
      → OthersKeep env (ResetIsUsed (sha256_hex env body.token))
      → ResetIsUnique (sha256_hex env body.token) w.db
      → reset_password env body w ≡ (ok code, w')
      → ¬ (
          (reset_password env
            (record body { new_password = new_password })
            (serve_all env state rs w')).0
          ≡ ok again)
  reset_password-single_use body w w' code again new_password rs uniques others u e =
      reset_password-refused (record body { new_password = new_password }) _ again others
        (serve_all-keeps env others (ResetIsUsed-KeptByProgram env (sha256_hex env body.token))
          state rs w' (reset_password-IsUsed body w w' code uniques others u e))

  verify_email-IsUsed :
      (token : String) (w w' : World) (code : ℕ)
      → OthersKeep env (VerificationIsUnique (sha256_hex env token))
      → OthersKeep env (VerificationIsUsed (sha256_hex env token))
      → VerificationIsUnique (sha256_hex env token) w.db
      → verify_email env token w ≡ (ok code, w')
      → VerificationIsUsed (sha256_hex env token) w'.db
  unfolding use_verification
  verify_email-IsUsed token w w' code uniques others u e =
      let hash = sha256_hex env token in
      let kept = VerificationIsUsed-KeptByProgram env hash in
      let t = verify_email-Trace env token w e in
      let out = t.consuming.outcome in
      let used = subst (VerificationIsUsed hash) (ap (λ p. p.1) out) (
        found-IsUsed hash (env.db_now w.effects) _ t.user_id (uniques.at w.effects w.db u)
          (ok-injective (ap (λ p. p.0) out))) in
      Ran-keeps (VerificationIsUsed hash) env others _
        (kept.users_keep.update_email_verified_keeps _) t.marking used

  verify_email-refused :
      (token : String) (w : World) (code : ℕ)
      → OthersKeep env (VerificationIsUsed (sha256_hex env token))
      → VerificationIsUsed (sha256_hex env token) w.db
      → ¬ ((verify_email env token w).0 ≡ ok code)
  unfolding use_verification
  verify_email-refused token w code others used e =
      let t = verify_email-Trace env token w (with_state (verify_email env token) w e) in
      used-refused (sha256_hex env token) (env.db_now w.effects) _ t.user_id
        (others.at w.effects w.db used) (ok-injective (ap (λ p. p.0) t.consuming.outcome))

  -- A verification token is good for one verification. After one that succeeded, and after any
  -- further requests to any routes, a verification with the same token does not succeed, if the
  -- hash of the token stands in one row at most and the other requests keep that so and keep a
  -- used hash used.
  pub verify_email-single_use :
      (token : String) (w w' : World) (code again : ℕ) (rs : List Request)
      → OthersKeep env (VerificationIsUnique (sha256_hex env token))
      → OthersKeep env (VerificationIsUsed (sha256_hex env token))
      → VerificationIsUnique (sha256_hex env token) w.db
      → verify_email env token w ≡ (ok code, w')
      → ¬ ((verify_email env token (serve_all env state rs w')).0 ≡ ok again)
  verify_email-single_use token w w' code again rs uniques others u e =
      verify_email-refused token _ again others (
        serve_all-keeps env others (VerificationIsUsed-KeptByProgram env (sha256_hex env token))
          state rs w' (verify_email-IsUsed token w w' code uniques others u e))
