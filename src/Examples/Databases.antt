-- ===== src/Examples/Databases.antt =====
-- A database that is written, crashes and is recovered.
use ferratomic.Prelude.{
  ◌+◌, ◌≤◌, ◌≡◌, refl, sym, ap, ◌∙◌, append-nil, arith, none, some, List, [], ◌∷◌, length,
  replicate, true,
}
use ferratomic.Prelude.Bytes.{Bytes, bytes_eq, to_le_bytes}
use ferratomic.Prelude.Results.{Result, ok}
use ferratomic.Datom.Types.{EntityId, Datom}
use ferratomic.Store.Evolution.{
  ApplyError, Visit, evolve_schema, evolve_groups, group_from, push_by_entity,
  extract_attribute_def, read_datoms, read_keyword, as_keyword,
}
use ferratomic.Tx.Commit.{Committed}
use ferratomic.Wal.State.{Wal, all, create, append_raw, fsync}
use ferratomic.Store.Recovery.{log_of, batch_replay-log_of, done, next}
use ferratomic.Db.History.{genesis-IsCanonical, SteadyEach}
use ferratomic.Db.Durable.{genesis-IsDurable, Answered, AnsweredBatch}
use ferratomic.Db.Batches.{batch_transact-Answered}
use ferratomic.Db.ColdStart.{ColdStartResult, cold_start}
use ferratomic.Db.Life.{IsRecovered, recover_from_wal-Life, cold_start-Life}
use ferratomic.Db.Life.Steps.{Life, created, called, saved}
use ferratomic.Db.Recover.{recover_from_wal}
use ferratomic.Db.Answers.{transact-Answered}
use ferratomic.Clock.Hybrid.{tick}
use ferratomic.Db.State.{
  Calls, Database, genesis_with_wal, build, publish, write_wal, DbError, log_and_publish, conclude,
  transact, batch_transact,
}
use ferratomic.Store.Merge.{Store}
use ferratomic.Store.Genesis.{genesis, genesis_schema}
use ferratomic.Store.Apply.{
  TransactContext, TxReceipt, observed, stamped, stamp_datoms, create_tx_metadata,
  create_federation_metadata, predecessors, tx_entity_from_txid, tx_id_canonical_bytes,
  provenance_keyword, stage, write, batch_replay,
}
use ferratomic.Store.Apply
use ferratomic.Clock.TxId.{TxId, with_node}
use ferratomic.Examples.Stores.{parts}
use ferratomic.Examples.Codec.{put_each, serialize, deserialize, reads_back}
use ferratomic.Examples.Lattices.{doc_fact}
use ferratomic.Prolly.Boundary.{is_empty}
use ferratomic.Tx.Schema.{Schema}

abbrev same_order : Visit
same_order groups = groups

abbrev hash : Bytes → EntityId
hash b = b

abbrev first : Committed
first = record { node = replicate 16 3; datoms = doc_fact ∷ [] }

abbrev calls : Calls
calls = record { reads = λ i. 100 + i; write = all; sync = true }

abbrev db : Database parts
db = (transact parts same_order hash serialize calls first (genesis_with_wal parts)).0

abbrev context : TransactContext
context = record {
  tx_id = with_node 100 0 (replicate 16 0);
  frontier = some [];
  signing = none;
  provenance = observed;
}

abbrev receipt : TxReceipt
receipt = record { epoch = 1; datoms = stamped hash first.node first.datoms context }

-- The transaction defines no attribute.
evolved : (schema : Schema) → evolve_schema same_order schema receipt.datoms ≡ (schema, ok tt)
unfolding evolve_schema evolve_groups group_from stamped stamp_datoms create_tx_metadata
    create_federation_metadata predecessors push_by_entity bytes_eq tx_entity_from_txid
    tx_id_canonical_bytes to_le_bytes extract_attribute_def read_datoms read_keyword as_keyword
    provenance_keyword
evolved schema = refl

abbrev after : Store parts
after = write parts receipt.datoms (record (genesis parts) { epoch = 1 })

first_ok : Apply.transact parts same_order hash first context (genesis parts) ≡ (after, ok receipt)
unfolding Apply.transact stage is_empty genesis
first_ok = rw (evolved genesis_schema) refl

batch_replay-log_of_example :
    batch_replay parts same_order
      (log_of parts hash same_order same_order (receipt ∷ []))
      (genesis parts)
    ≡ (after, ok tt)
batch_replay-log_of_example =
    batch_replay-log_of parts hash same_order same_order (receipt ∷ []) (genesis parts) after
      (genesis-IsCanonical parts hash same_order same_order)
      (next first context receipt first_ok refl done)

-- The log after the transaction
abbrev payload : Bytes
payload = length receipt.datoms ∷ put_each receipt.datoms

abbrev one : Wal
one = (append_raw all 1 payload create).0

abbrev log : Wal
log = (fsync true one).0

accepted : append_raw all 1 payload create ≡ (one, ok tt)
unfolding append_raw create stamped stamp_datoms create_tx_metadata create_federation_metadata
    predecessors tx_entity_from_txid tx_id_canonical_bytes to_le_bytes provenance_keyword
accepted = refl

-- The database with the clock advanced
abbrev ticked : Database parts
ticked = record (genesis_with_wal parts) {
  clock = record { physical = 100; logical = 0; node = replicate 16 0 };
}

abbrev published :
    Store parts × Result ApplyError TxReceipt → Database parts × Result DbError TxReceipt
published = log_and_publish parts same_order hash serialize calls context.tx_id ticked

stored :
    write_wal parts same_order hash serialize calls 1 receipt.datoms (some create)
    ≡ (some log, ok tt)
unfolding write_wal fsync
stored = rw accepted refl

attached : db.wal ≡ some log
unfolding transact genesis_with_wal build tick genesis publish
attached =
    ap (λ x. (published x).0.wal) first_ok
    ∙ ap
        (λ x. (conclude parts same_order hash serialize context.tx_id after receipt ticked x).0.wal)
        stored

durable_whole : length log.file.durable ≤ length log.file.content
unfolding fsync
durable_whole = omega arith

-- The database after the transaction, and with a checkpoint of it
abbrev one_call : Life parts hash same_order same_order serialize deserialize 0 db none
one_call = called calls first created refl (λ ctx t r e. refl)

abbrev checkpointed :
    Life parts hash same_order same_order serialize deserialize 0 db (some (some db.current))
checkpointed = saved (some db.current) one_call refl

-- Its file is all that a crash leaves.
recover_from_wal-Life_example :
    (db' : Database parts) × (recover_from_wal parts same_order deserialize log.file.content
      ≡ some (ok db'))
    × IsRecovered parts hash same_order same_order 1 db db'.current
recover_from_wal-Life_example =
    recover_from_wal-Life parts hash same_order same_order serialize deserialize 0 reads_back
      log.file.content [] one_call attached (sym (append-nil log.file.content)) durable_whole

cold_start-Life_example :
    (started : ColdStartResult parts same_order deserialize) × (cold_start parts same_order
        deserialize true
        (some (some db.current))
        (some log.file.content)
      ≡ some (ok started))
    × IsRecovered parts hash same_order same_order 1 db started.database.current
cold_start-Life_example =
    cold_start-Life parts hash same_order same_order serialize deserialize 0 reads_back true
      log.file.content [] checkpointed attached (sym (append-nil log.file.content)) durable_whole

-- A batch of the transaction and another
abbrev two : List Committed
two = first ∷ first ∷ []

any_steady :
    (batches : List (List Datom × TxId)) (s : Store parts)
    → SteadyEach parts hash same_order same_order batches s
any_steady [] s = tt
any_steady ((ds, tx) ∷ batches) s = λ t r e. (refl, any_steady batches t)

batch_transact-Answered_example :
    AnsweredBatch parts hash same_order same_order serialize two
      (genesis_with_wal parts)
      []
      []
      (batch_transact parts same_order hash serialize (λ i. calls) two (genesis_with_wal parts))
batch_transact-Answered_example =
    batch_transact-Answered parts hash same_order same_order serialize (λ i. calls) two
      (genesis_with_wal parts) [] [] (genesis-IsDurable parts hash same_order same_order serialize)
      (λ i. refl) (λ batches e. any_steady batches (genesis_with_wal parts).current)

transact-Answered_example :
    Answered parts hash same_order same_order serialize first
      (genesis_with_wal parts)
      []
      []
      (transact parts same_order hash serialize calls first (genesis_with_wal parts))
transact-Answered_example =
    transact-Answered parts hash same_order same_order serialize calls first
      (genesis_with_wal parts) [] [] (genesis-IsDurable parts hash same_order same_order serialize)
      refl (λ ctx t r e. refl)
