-- ===== src/Workspace.antt =====
-- internal/workspace: the operations on a workspace.
pub mod Resume
pub mod Disk
pub mod Discover
pub mod Status
pub mod Lifecycle
pub mod Checkpoint
pub mod StaleClaim
pub mod Op
pub mod Boundary
pub mod Verify
pub mod Apply
pub mod Snapshot
pub mod Recover
