-- ===== src/Db.antt =====
-- crates/db: the tables of the migration, the errors of a statement, and the functions of
-- crates/db/src/users.rs by the tables that they are about.
pub mod Schema
pub mod Users
pub mod Connection
pub mod Permissions
pub mod OauthIdentities
pub mod RefreshTokens
pub mod OneTimeTokens
pub mod Frames
pub mod Program
pub mod Consistent
