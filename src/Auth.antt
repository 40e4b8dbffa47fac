-- ===== src/Auth.antt =====
-- crates/auth: passwords, tokens, JWTs, permissions and Google OAuth.
pub mod Types
pub mod Password
pub mod Tokens
pub mod Jwt
pub mod Permissions
pub mod Google
pub mod Effects
