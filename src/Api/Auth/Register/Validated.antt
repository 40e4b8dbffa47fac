-- ===== src/Api/Auth/Register/Validated.antt =====
-- Registration with a body that does not pass its checks.
use rust_generic_user_backen.Base.{
  String, ◌≡◌, refl, ap, Bool, false, ◌&&◌, [], ◌∷◌, ◌++◌, arith, if◌then◌else◌, Bool-cases, inl,
  inr,
}
use rust_generic_user_backen.Base.Int.{ℤ}
use rust_generic_user_backen.Base.Result
use rust_generic_user_backen.Base.Result.{Result, ok, err}
use rust_generic_user_backen.Core.Error.{
  validation_fields, from_validation_errors, Fields, friendly_message, insert,
}
use rust_generic_user_backen.Base.Text.{show}
use rust_generic_user_backen.Env.{Env}
use rust_generic_user_backen.App.{World, lift}
use rust_generic_user_backen.App.Forward.{bind-err}
use rust_generic_user_backen.Api.Validate.{check_account}
use rust_generic_user_backen.Api.Auth.Register.{RegisterReq, RegisterPort, register_user}

-- The answer for a body, by which of its two fields passes its check.
abbrev messages : Bool → Bool → Fields
messages email password =
    (if email then [] else ("email", "Must be a valid email address" ∷ []) ∷ [])
    ++ (if password then [] else ("password", "Must be at least 8 characters long" ∷ []) ∷ [])

module _ (env : Env) where
  check-messages :
      (email password : String)
      → (env.valid_email email && env.valid_min_length 8 password) ≡ false
      → Result.map_err from_validation_errors (check_account env email password)
        ≡ err (
            validation_fields "Validation failed"
              (messages (env.valid_email email) (env.valid_min_length 8 password)))
  unfolding check_account from_validation_errors friendly_message insert show
  check-messages email password h = elim (Bool-cases (env.valid_email email)) [
    | inl good ↦ elim (Bool-cases (env.valid_min_length 8 password)) [
      | inl long ↦ ground (arith, good, long, h)
      | inr short ↦ rw (good, short) refl
    ]
    | inr bad ↦ elim (Bool-cases (env.valid_min_length 8 password)) [
      | inl long ↦ rw (bad, long) refl
      | inr short ↦ rw (bad, short) refl
    ]
  ]

  -- A registration whose e-mail address or password fails its check calls no operation of its
  -- port, makes no effect and fails with a message for each field that is wrong, whatever the port
  -- is.
  pub register_user-invalid :
      (port : RegisterPort) (body : RegisterReq) (access_ttl_min refresh_ttl_days : ℤ) (w : World)
      → (env.valid_email body.email && env.valid_min_length 8 body.password) ≡ false
      → register_user env port body access_ttl_min refresh_ttl_days w ≡ (
        err (
            validation_fields "Validation failed"
              (messages (env.valid_email body.email) (env.valid_min_length 8 body.password))),
        w,
      )
  unfolding register_user lift
  register_user-invalid port body access_ttl_min refresh_ttl_days w h =
      bind-err
        (lift (Result.map_err from_validation_errors (check_account env body.email body.password)))
        _ w (ap (λ r. (r, w)) (check-messages body.email body.password h))
