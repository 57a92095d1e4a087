-- ===== src/Identity.antt =====
-- internal/identity: the profiles of this machine and the Sessions bound to workspaces.
pub mod Profile
pub mod Store
pub mod Session
mod Tests
