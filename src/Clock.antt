-- ===== src/Clock.antt =====
-- The hybrid logical clock (ferratom-clock/src): timestamps, the clock's operations, the frontier.
pub mod TxId
pub mod Hybrid
pub mod Frontier
pub mod Laws
pub mod History
