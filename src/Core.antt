-- ===== src/Core.antt =====
-- internal/core: the rules of the protocol that touch no file.
pub mod Ownership
pub mod StateVersion
pub mod Manifest
