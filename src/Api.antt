-- ===== src/Api.antt =====
-- crates/api: settings and state, the extractors, the routes and the command.
pub mod Error
pub mod Config
pub mod Host
pub mod State
pub mod Validate
pub mod Email
pub mod Extract
pub mod Auth
pub mod Admin
pub mod Users
pub mod CreateAdmin
pub mod Router
pub mod Server
pub mod Cli
pub mod Openapi
