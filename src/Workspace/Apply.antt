-- ===== src/Workspace/Apply.antt =====
-- internal/workspace/apply.go and transaction_apply.go: a plan is applied as a transaction.
pub mod Frame
pub mod Outcome
pub mod Perform
pub mod Prepare
pub mod Quiet
pub mod Run
pub mod Sample
mod Tests
