-- ===== src/Migration.antt =====
-- internal/migration: the versions of the workspace state and the steps between them.
pub mod Version
pub mod Registry
pub mod ToV11
pub mod ToV12
mod Tests
