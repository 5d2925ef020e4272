-- ===== src/Store.antt =====
-- The store (ferratomic-store): LIVE lattice, merge, selective merge, schema evolution, and the
-- application and replay of transactions.
pub mod OrdMap
pub mod Causal
pub mod Events
pub mod Latest
pub mod Replay
pub mod Homomorphism
pub mod LiveSet
pub mod LiveSync
pub mod Ties
pub mod Resolve
pub mod Schemas
pub mod SchemaLaws
pub mod SchemaConflicts
pub mod SchemaUnion
pub mod Merge
pub mod EventOrder
pub mod Converge
pub mod Sorting
pub mod Selective
pub mod Evolution
pub mod AnyOrder
pub mod OrderDecides
pub mod Sets
pub mod Apply
pub mod Written
pub mod Batch
pub mod BatchOrders
pub mod Recovery
pub mod Reopened
pub mod Typed
pub mod Genesis
