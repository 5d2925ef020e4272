-- ===== src/Positional/Keys.antt =====
-- The keys of the indexes (ferratomic-index/src/keys.rs).
pub mod Ops
pub mod Aevt
pub mod Vaet
pub mod Avet
