-- ===== src/Db.antt =====
-- The database over a store and a log (ferratomic-core/src: db, storage), signing, and the wire
-- types.
pub mod Wire
pub mod State
pub mod Signing
pub mod Signed
pub mod Recover
pub mod ColdStart
pub mod Backend
pub mod Starts
pub mod Entries
pub mod History
pub mod Logged
pub mod Durable
pub mod Outcome
pub mod Answers
pub mod Batches
pub mod Checkpoint
pub mod Crash
pub mod Restart
pub mod Life
