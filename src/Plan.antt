-- ===== src/Plan.antt =====
-- internal/plan/change.go: changes, the plans built from them, and their persisted form.
pub mod Change
pub mod Persist
pub mod Sample
mod Tests
