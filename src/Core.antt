-- ===== src/Core.antt =====
-- crates/core: the domain types and the error that the whole workspace shares.
pub mod Role
pub mod User
pub mod Error
