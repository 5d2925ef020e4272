-- ===== src/Prolly.antt =====
-- The prolly tree (ferratomic-core, prolly): how it is built from sorted entries, and read.
pub mod Boundary
pub mod Split
pub mod Build
pub mod Levels
pub mod Read
pub mod LeafRead
pub mod ReadTree
pub mod ChildRead
pub mod Stored
pub mod Covers
pub mod Pass
pub mod RoundTrip
