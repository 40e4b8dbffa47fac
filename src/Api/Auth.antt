-- ===== src/Api/Auth.antt =====
-- crates/api/src/routes/auth.rs, by the parts of the file. A handler answers with the body or the
-- status of its success, or fails with the error that `Api.Error.into_response` turns into one.
pub mod Tokens
pub mod Register
pub mod Session
pub mod Google
pub mod VerifyEmail
pub mod Reset
