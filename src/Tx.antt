-- ===== src/Tx.antt =====
-- Transactions (ferratomic-tx) and the schema that they are validated against.
pub mod Schema
pub mod Commit
pub mod Verdict
