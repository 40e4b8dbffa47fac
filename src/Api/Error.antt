-- ===== src/Api/Error.antt =====
-- crates/api/src/error.rs: the HTTP answer for an error. `ApiError` wraps an `AppError` and adds
-- nothing to it, so the handlers of the model fail with an `AppError`.
pub mod Opaque
use rust_generic_user_backen.Base.{ℕ, String, Option, none, some}
use rust_generic_user_backen.Core.Error.{
  Fields, AppError, not_found, forbidden, unauthorized, email_not_verified, validation, conflict,
  bad_request, storage, file_processing, database, auth, internal, validation_fields, to_string,
}

-- The JSON object under "error"; only a validation error has "fields".
pub record ErrorBody : Type 0 where
  pub code : String
  pub message : String
  pub fields : Option Fields

pub record Response : Type 0 where
  pub status : ℕ
  pub error : ErrorBody

abbrev plain : ℕ → String → String → Response
plain status code message = record {
  status = status;
  error = record { code = code; message = message; fields = none };
}

abbrev internal_error : Response
internal_error = plain 500 "internal" "internal error"

unfoldable pub into_response : AppError → Response
unfolding to_string
into_response (validation_fields message fields) = record {
  status = 422;
  error = record { code = "validation"; message = message; fields = some fields };
}
into_response not_found = plain 404 "not_found" (to_string not_found)
into_response forbidden = plain 403 "forbidden" (to_string forbidden)
into_response unauthorized = plain 401 "unauthorized" (to_string unauthorized)
into_response (validation m) = plain 422 "validation" (to_string (validation m))
into_response (conflict m) = plain 409 "conflict" (to_string (conflict m))
into_response (bad_request m) = plain 400 "bad_request" (to_string (bad_request m))
into_response (auth m) = plain 401 "auth" (to_string (auth m))
into_response email_not_verified = plain 403 "email_not_verified" (to_string email_not_verified)
into_response (storage _) = internal_error
into_response (database _) = internal_error
into_response (internal _) = internal_error
into_response (file_processing _) = internal_error
