-- ===== src/Identity.antt =====
-- The identity module, crates/module-identity, with the authorization of
-- crates/shared-kernel/src/auth.rs.
pub mod Sessions
pub mod Purging
pub mod Users
pub mod Claims
pub mod Service
pub mod Rotation
pub mod Caller
pub mod Policies
mod Tests
