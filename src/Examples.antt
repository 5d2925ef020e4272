-- ===== src/Examples.antt =====
-- The theorems applied to concrete inputs, and tests.
pub mod Clocks
pub mod Logs
pub mod Datoms
pub mod Limits
pub mod Selections
pub mod Commits
pub mod Hashes
pub mod Names
pub mod Sums
pub mod Maps
pub mod Definitions
pub mod Stores
pub mod Codec
pub mod Databases
pub mod Transactions
pub mod Signatures
pub mod Lattices
pub mod Layouts
pub mod Observers
pub mod Searches
pub mod Trees
pub mod TreeReads
