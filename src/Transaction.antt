-- ===== src/Transaction.antt =====
-- internal/transaction: the durable record of a transaction and what can be done with it.
pub mod Record
pub mod Validate
pub mod Progress
pub mod Classify
pub mod Recovery
pub mod Codec
mod Tests
