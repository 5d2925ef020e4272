-- ===== src/Db/State.antt =====
-- The database and its writes (ferratomic-core/src/db: mod.rs, transact.rs). Calls come one after
-- the other, so that no lock is held or poisoned and the limiter has a slot; observers, who cannot
-- change a result, are left out. Bincode is `serialize`; how other calls turn out is in `Calls`.
use ferratomic.Prelude.{
  ℕ, suc, ◌+◌, ◌^◌, ◌%◌, Bool, Option, none, some, List, [], ◌∷◌, if◌then◌else◌,
}
use ferratomic.Prelude.Bytes.{Bytes}
use ferratomic.Prelude.Results.{Result, ok, err}
use ferratomic.Clock.TxId.{TxId}
use ferratomic.Clock.Hybrid.{ClockError, HybridClock, with_clock, tick}
use ferratomic.Clock.Frontier.{Frontier, empty, advance}
use ferratomic.Datom.Types.{EntityId, Datom}
use ferratomic.Prolly.Boundary.{is_empty}
use ferratomic.Store.Evolution.{ApplyError, Visit}
use ferratomic.Store.Merge.{Parts, Store}
use ferratomic.Store.Genesis.{genesis}
use ferratomic.Store.Apply.{TransactContext, observed, TxReceipt, batch_splice_transact}
use ferratomic.Store.Apply
use ferratomic.Tx.Commit.{Committed}
use ferratomic.Wal.State.{WalError, wal_write, Write, Wal, create, append_raw, fsync}

pub data DbError : Type 0 where
  clock_error : ClockError → DbError
  apply_error : ApplyError → DbError
  wal_error : WalError → DbError
  io_error checkpoint_corrupted : DbError

-- What is outside the program: the readings of the wall clock, the file's write, and its sync.
pub record Calls : Type 0 where
  pub reads : ℕ → ℕ
  pub write : Write
  pub sync : Bool

-- `append_raw(…)?; fsync()`
abbrev pub then_sync : Bool → Wal × Result WalError (Unit {0}) → Wal × Result WalError (Unit {0})
then_sync sync (w, err e) = (w, err e)
then_sync sync (w, ok u) = fsync sync w

abbrev pub log_payload : Calls → ℕ → Option Bytes → Wal → Wal × Result WalError (Unit {0})
log_payload calls epoch none w = (w, err wal_write)
log_payload calls epoch (some payload) w =
    then_sync calls.sync (append_raw calls.write epoch payload w)

abbrev pub attached : Wal × Result WalError (Unit {0}) → Option Wal × Result WalError (Unit {0})
attached (w, r) = (some w, r)

module _ (p : Parts) where
  pub record Database : Type 0 where
    pub current : Store p
    pub wal : Option Wal
    pub transaction_count : ℕ
    pub clock : HybridClock
    pub frontier : Frontier

  -- `build_opening` and `finish`
  unfoldable pub build : Store p → Option Wal → Database
  build store log = record {
    current = store;
    wal = log;
    transaction_count = 0;
    clock = with_clock store.genesis_node;
    frontier = empty;
  }

  unfoldable pub genesis_with_wal : Database
  genesis_with_wal = build (genesis p) (some create)

  unfoldable pub from_store_with_wal : Store p → Database
  from_store_with_wal store = build store (some create)

  -- `publish_and_check`
  unfoldable pub publish : Store p → Database → Database
  publish store db = record db {
    current = store;
    transaction_count = (db.transaction_count + 1) % 2 ^ 64;
  }

  abbrev pub advance_frontier : TxId → Database → Database
  advance_frontier tx db = record db { frontier = advance tx.node tx db.frontier }

  module _ (visit : Visit) (from_content : Bytes → EntityId)
      (serialize : List Datom → Option Bytes) where
    unfoldable pub write_wal :
        Calls → ℕ → List Datom → Option Wal → Option Wal × Result WalError (Unit {0})
    write_wal calls epoch datoms none = (none, ok tt)
    write_wal calls epoch datoms (some w) = attached (log_payload calls epoch (serialize datoms) w)

    -- The context of a transaction
    abbrev pub context : TxId → Frontier → Option (Bytes × Bytes) → TransactContext
    context tx frontier signing = record {
      tx_id = tx;
      frontier = some frontier;
      signing = signing;
      provenance = observed;
    }

    -- What follows the write to the log: the error, or the publication.
    abbrev pub conclude :
        TxId
        → Store p
        → TxReceipt
        → Database
        → Option Wal × Result WalError (Unit {0})
        → Database × Result DbError TxReceipt
    conclude tx store receipt db (w, err e) = (record db { wal = w }, err (wal_error e))
    conclude tx store receipt db (w, ok u) =
        (advance_frontier tx (publish store (record db { wal = w })), ok receipt)

    -- What follows the application of the transaction to the clone of the store.
    abbrev pub log_and_publish :
        Calls
        → TxId
        → Database
        → Store p × Result ApplyError TxReceipt
        → Database × Result DbError TxReceipt
    log_and_publish calls tx db (store, err e) = (db, err (apply_error e))
    log_and_publish calls tx db (store, ok receipt) =
        conclude tx store receipt db (write_wal calls receipt.epoch receipt.datoms db.wal)

    -- What follows the tick; `sign` makes the signature, or none.
    abbrev pub ticked :
        (TxId → Option (Bytes × Bytes))
        → Calls
        → Committed
        → Database
        → HybridClock × Result ClockError TxId
        → Database × Result DbError TxReceipt
    ticked sign calls transaction db (c, err e) = (record db { clock = c }, err (clock_error e))
    ticked sign calls transaction db (c, ok tx) =
        log_and_publish calls tx (record db { clock = c })
          (Apply.transact p visit from_content transaction (context tx db.frontier (sign tx))
            db.current)

    unfoldable pub transact : Calls → Committed → Database → Database × Result DbError TxReceipt
    transact calls transaction db =
        ticked (λ tx. none) calls transaction db (tick calls.reads db.clock)

    abbrev pub Ticked : Type 0
    Ticked = HybridClock × Result ClockError (List (List Datom × TxId))

    abbrev pub push_batch : List Datom → TxId → Ticked → Ticked
    push_batch datoms tx (c, err e) = (c, err e)
    push_batch datoms tx (c, ok batches) = (c, ok ((datoms, tx) ∷ batches))

    abbrev pub tick_then :
        List Datom → (HybridClock → Ticked) → HybridClock × Result ClockError TxId → Ticked
    tick_then datoms go_on (c, err e) = (c, err e)
    tick_then datoms go_on (c, ok tx) = push_batch datoms tx (go_on c)

    -- One tick for each transaction, of which the datoms remain
    unfoldable pub tick_each : (ℕ → Calls) → List Committed → HybridClock → Ticked
    tick_each calls [] c = (c, ok [])
    tick_each calls (transaction ∷ transactions) c =
        tick_then transaction.datoms (tick_each (λ i. calls (suc i)) transactions)
          (tick (calls 0).reads c)

    abbrev pub write_then :
        (Option Wal → Option Wal × Result WalError (Unit {0}))
        → Option Wal × Result WalError (Unit {0})
        → Option Wal × Result WalError (Unit {0})
    write_then go_on (w, err e) = (w, err e)
    write_then go_on (w, ok u) = go_on w

    -- `self.write_wal(…)?` for each receipt
    unfoldable pub write_each :
        (ℕ → Calls) → List TxReceipt → Option Wal → Option Wal × Result WalError (Unit {0})
    write_each calls [] w = (w, ok tt)
    write_each calls (receipt ∷ receipts) w =
        write_then (write_each (λ i. calls (suc i)) receipts)
          (write_wal (calls 0) receipt.epoch receipt.datoms w)

    abbrev pub conclude_batch :
        Store p
        → List TxReceipt
        → Database
        → Option Wal × Result WalError (Unit {0})
        → Database × Result DbError (List TxReceipt)
    conclude_batch store receipts db (w, err e) = (record db { wal = w }, err (wal_error e))
    conclude_batch store receipts db (w, ok u) =
        (publish store (record db { wal = w }), ok receipts)

    abbrev pub log_and_publish_batch :
        (ℕ → Calls)
        → Database
        → Store p × Result ApplyError (List TxReceipt)
        → Database × Result DbError (List TxReceipt)
    log_and_publish_batch calls db (store, err e) = (db, err (apply_error e))
    log_and_publish_batch calls db (store, ok receipts) =
        conclude_batch store receipts db (write_each calls receipts db.wal)

    abbrev pub ticked_batch :
        (ℕ → Calls)
        → Database
        → HybridClock × Result ClockError (List (List Datom × TxId))
        → Database × Result DbError (List TxReceipt)
    ticked_batch calls db (c, err e) = (record db { clock = c }, err (clock_error e))
    ticked_batch calls db (c, ok batches) =
        log_and_publish_batch calls (record db { clock = c })
          (batch_splice_transact p visit from_content batches db.current)

    -- The i-th tick and the i-th write of the batch are those of the i-th call.
    unfoldable pub batch_transact :
        (ℕ → Calls) → List Committed → Database → Database × Result DbError (List TxReceipt)
    batch_transact calls transactions db =
        if is_empty transactions
        then (db, ok [])
        else ticked_batch calls db (tick_each calls transactions db.clock)
