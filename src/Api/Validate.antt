-- ===== src/Api/Validate.antt =====
-- The checks that the `#[validate]` attributes of the request bodies ask of the `validator` crate:
-- one error per attribute that fails, under the field's name.
use rust_generic_user_backen.Base.{ℕ, String, none, [], ◌∷◌, ◌++◌, if◌then◌else◌}
use rust_generic_user_backen.Base.Result.{Result, ok, err}
use rust_generic_user_backen.Core.Error.{ValidationErrors, number, other}
use rust_generic_user_backen.Env.{Env}

abbrev pub outcome : ValidationErrors → Result ValidationErrors Unit
outcome [] = ok tt
outcome (e ∷ errs) = err (e ∷ errs)

module _ (env : Env) where
  -- `#[validate(email)]`
  unfoldable pub check_email : String → String → ValidationErrors
  check_email field value =
      if env.valid_email value
      then []
      else (
        field,
        record { code = "email"; message = none; params = ("value", other value) ∷ [] } ∷ [],
      )
        ∷ []

  -- `#[validate(length(min = ...))]`
  unfoldable pub check_min_length : ℕ → String → String → ValidationErrors
  check_min_length min field value =
      if env.valid_min_length min value
      then []
      else (
        field,
        record {
          code = "length";
          message = none;
          params = ("min", number min) ∷ ("value", other value) ∷ [];
        }
            ∷ [],
      )
        ∷ []

  -- The fields of `RegisterReq` and of `CreateAdminArgs`.
  unfoldable pub check_account : String → String → Result ValidationErrors Unit
  unfolding check_email check_min_length
  check_account email password =
      outcome (check_email "email" email ++ check_min_length 8 "password" password)

  -- `ResetPasswordReq`
  unfoldable pub check_reset : String → Result ValidationErrors Unit
  unfolding check_min_length
  check_reset new_password = outcome (check_min_length 8 "new_password" new_password)
