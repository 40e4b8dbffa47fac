-- ===== src/Api/Error/Opaque.antt =====
-- What the answers to errors give away.
use rust_generic_user_backen.Base.{◌≡◌, refl, ◌≤◌, arith}
use rust_generic_user_backen.Core.Error.{
  AppError, not_found, forbidden, unauthorized, email_not_verified, validation, conflict,
  bad_request, storage, file_processing, database, auth, internal, validation_fields,
}
use rust_generic_user_backen.Api.Error.{into_response}

-- The answer to every error that is a server's error.
server_error :
    (e : AppError) → 500 ≤ (into_response e).status → into_response e ≡ into_response (internal "")
unfolding into_response
server_error not_found h = ground (arith, h)
server_error forbidden h = ground (arith, h)
server_error unauthorized h = ground (arith, h)
server_error email_not_verified h = ground (arith, h)
server_error (validation m) h = ground (arith, h)
server_error (conflict m) h = ground (arith, h)
server_error (bad_request m) h = ground (arith, h)
server_error (auth m) h = ground (arith, h)
server_error (validation_fields m fields) h = ground (arith, h)
server_error (storage m) h = refl
server_error (database m) h = refl
server_error (internal m) h = refl
server_error (file_processing m) h = refl

-- Two errors whose answers have a status of 500 or more get the same answer, so that nothing of
-- their messages reaches the client.
pub into_response-opaque :
    (e f : AppError)
    → 500 ≤ (into_response e).status
    → 500 ≤ (into_response f).status
    → into_response e ≡ into_response f
into_response-opaque e f h k = rw (server_error e h, server_error f k) refl
