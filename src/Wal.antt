-- ===== src/Wal.antt =====
-- The write-ahead log (ferratomic-wal/src/wal).
pub mod Frame
pub mod Parse
pub mod Total
pub mod Log
pub mod Crash
pub mod DedupBloom
pub mod State
pub mod Append
pub mod Durable
pub mod Recover
pub mod Life
pub mod ShortWrite
