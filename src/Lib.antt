-- ===== src/Lib.antt =====
-- Verification of ferratomic, an append-only datom database: datoms are facts that are asserted
-- and retracted, a store is a set of them, and replicas merge by union.
--
-- The parts that are modelled, and how they interact. A node stamps transactions with a hybrid
-- logical clock; a transaction is validated against the schema and committed; its bytes are
-- appended to the write-ahead log, which is synced and, after a crash, recovered; datoms are
-- written in a canonical byte format; the store keeps them as sorted arrays, which are merged,
-- filtered, indexed by entity and reduced to the positions that are live; a limiter bounds the
-- writers; observers are told of the commits; and the entries of a store are cut into chunks, the
-- leaves of a prolly tree. The database drives this: it ticks the clock, applies a transaction to a
-- copy of the store, writes what was stored to the log, syncs it and only then publishes the copy;
-- recovery replays the log on a new store or on a checkpoint, and a cold start tries these in turn.
--
--   Clock        ferratom-clock/src: TxId and its order (TxId), tick and receive (Hybrid), what one
--                call does (Laws), sequences of calls (History), the vector clock (Frontier).
--   Datom        ferratom/src/datom: the data (Types), canonical_bytes (Encode), from_canonical_bytes
--                (Decode), UTF-8 (Utf8), content_hash (Hash); the other files hold their laws.
--   Wal          ferratomic-wal/src/wal: frames and CRC (Frame), the open log, append_raw, fsync and
--                recover (State), the Bloom filter (DedupBloom); parsing (Parse, Log, Crash, Total), what
--                the calls keep (Append, Durable, Recover, Life), partial writes (ShortWrite).
--   Tx           ferratomic-tx/src and ferratom/src/schema.rs: the schema, the builder and commit,
--                and the verdict of a commit.
--   Filter       ferratom/src/filter.rs: DatomFilter, and filtering against merging (Union).
--   Intern       ferratom/src/datom/value.rs: Attribute::new and the intern table (Table).
--   Limiter      ferratomic-core/src/backpressure.rs: atomic steps of threads in any order.
--   Positional   ferratomic-positional/src: merge.rs (Merge), live.rs (Live), entity_rle.rs
--                (EntityRle), chunk_fingerprints.rs and fingerprint.rs (ChunkFingerprints, with
--                ChunkSums, ChunkDecomposition, ChunkDiff), each with its laws; perm.rs
--                (Eytzinger), with the nodes of its tree (EytzingerTree, EytzingerNodes), filling
--                and reading them (EytzingerFill, EytzingerLayout) and searching (EytzingerOrder,
--                EytzingerSearch), and building the permutation (Permutation, PermutationOrder,
--                PermutationSearch); ferratomic-index/src/keys.rs (Keys); the lookups of store.rs
--                and perm_accessors.rs by these keys (Gets, GetsFound); search.rs (Interpolation,
--                with InterpolationLaws).
--   Observer     ferratomic-core/src/observer.rs: the broadcast of commits; the call of one
--                publication (Calls), commits in order (InOrder) and out of order (Late).
--   Store        ferratomic-store/src: the LIVE lattice of query.rs and store.rs (Causal, on the maps
--                of OrdMap), what it holds (Events, Latest, Replay), its LIVE set (LiveSet, LiveSync),
--                its merge (Homomorphism, EventOrder), equal identifiers (Ties), the last writer
--                (Resolve); merge.rs: schemas (Schemas, SchemaLaws, SchemaConflicts, SchemaUnion), stores
--                (Merge, Converge), the selective merge (Sorting, Selective). schema_evolution.rs:
--                evolve_schema (Evolution) and the order of its groups (AnyOrder, OrderDecides), the
--                genesis schema (Genesis). apply.rs: transact, batch_splice_transact, replay_entry,
--                batch_replay (Apply); sets of datoms (Sets), what storing them does (Written),
--                batches (Batch, BatchOrders), replay (Recovery), the representation (Reopened), the
--                metadata's types (Typed).
--   Db           ferratomic-core/src/db: mod.rs and transact.rs (State), recover.rs (Recover), and
--                ferratom/src/wire.rs (Wire), ferratomic-core/src/signing.rs and transact_signed
--                (Signing, Signed); storage/recovery.rs: the start on a directory (ColdStart) and on a
--                backend (Backend), and the two compared (Starts). Replayed entries (Entries),
--                sequences of transactions (History), what writes leave of the log (Logged) and of
--                the database (Durable, Outcome), calls (Answers, Batches), checkpoints (Checkpoint),
--                crashes (Crash), the ways to recover (Restart), and the life of a database (Life):
--                its steps (Life/Steps) and what they keep (Life/Kept).
--   Prolly       ferratomic-core/src/prolly: the boundary test and the split of a level (Boundary,
--                Split), building the tree (Build, Levels), reading a leaf (Read, LeafRead), an
--                internal chunk and a tree (ReadTree, ChildRead); what the store of chunks holds
--                (Stored), how a chunk is read (Covers), a level (Pass) and the tree (RoundTrip).
--   Prelude      Boolean tests, lists, orders, sorted maps, bytes and bits, shared by all.
--   Examples     runs of the operations, and the theorems at concrete inputs.
--
-- State is passed explicitly: an operation takes the state and returns the new one with a
-- result. What the operating system does is an argument: the readings of the wall clock, how a
-- write or a sync turns out, which file call fails. A crash leaves any front of the file that
-- reaches at least to the last sync. Numbers are natural numbers with the wrap-around or
-- saturation of the source written out; signed numbers and floats stand for their bit patterns,
-- strings for their bytes. BTreeMap is a sorted association list; the maps and sets of the crate
-- im are an interface with their laws. A HashMap yields its values in an order that is a
-- parameter. BLAKE3 and Ed25519 are parameters, and so is bincode, of which recovery needs that
-- it reads back what it wrote. What loading a checkpoint gives is an argument: the store that
-- was saved, up to its representation, or nothing. The calls of a database come one after the
-- other. The order of datoms, where one is needed, is a parameter with the laws of a total
-- order.
--
-- Bounds and fuel. Parsing the log runs on fuel, one more than the number of bytes: a frame is
-- at least 22 bytes long, so it never runs out (Wal/Total). The busy wait of the clock makes at
-- most the 1,000,000 retries of the source. The recursion and the loop over the breadth-first
-- tree run on the length of the array as fuel: every step goes to a node of a greater index.
-- Interpolation search has one more: every step leaves a shorter range. Building a prolly tree
-- runs on the number of its entries: every level is shorter than the one below; reading it needs
-- one more. All other loops are structural recursion.
--
-- Not modelled: the snapshots and locks of the database, its delivery to observers and the
-- identity transactions of genesis_with_identity; the secondary indexes, the checkpoint formats,
-- the comparison, snapshots and transfer of prolly trees, the succinct structures, the set
-- sketch and the storage backends. They are parts of their own, and what is modelled takes from
-- them no more than the arguments named above. Left out for good: serialization by serde, BLAKE3
-- and ed25519, memory mapping, file locking, display of errors, and the crates that only test or
-- check the others.
pub mod Clock
pub mod Datom
pub mod Db
pub mod Examples
pub mod Filter
pub mod Intern
pub mod Limiter
pub mod Observer
pub mod Positional
pub mod Prelude
pub mod Prolly
pub mod Store
pub mod Tx
pub mod Wal
