-- ===== src/Db/Durable.antt =====
-- The log holds what was published before it is published (ferratomic-core/src/db, INV-FERR-008,
-- INV-FERR-014).
use ferratomic.Prelude.{◌≡◌, refl, ap, ◌∙◌, ◌⊎◌, Option, some, List, [], ◌∷◌, ◌++◌, length, map}
use ferratomic.Prelude.Bytes.{Bytes}
use ferratomic.Prelude.Results.{Result, ok, err}
use ferratomic.Clock.TxId.{TxId}
use ferratomic.Datom.Types.{EntityId, Datom}
use ferratomic.Positional.MergeLaws.{IsCanonical}
use ferratomic.Store.Evolution.{Visit, evolve_schema}
use ferratomic.Store.Merge.{Parts, Store, datoms}
use ferratomic.Store.Genesis.{genesis}
use ferratomic.Store.Apply.{TransactContext, TxReceipt, batch_splice_transact}
use ferratomic.Store.Apply
use ferratomic.Store.Written.{opened}
use ferratomic.Store.Recovery.{Transacted, done, Transacted-IsCanonical}
use ferratomic.Tx.Commit.{Committed}
use ferratomic.Wal.Frame.{WalEntry}
use ferratomic.Wal.State.{Wal, create}
use ferratomic.Wal.Durable.{IsLog, IsLog-create}
use ferratomic.Db.State.{DbError, Database, genesis_with_wal, build}
use ferratomic.Db.Entries.{IsFrames}
use ferratomic.Db.History.{genesis-IsCanonical, SteadyEach}

module _ (p : Parts) (from_content : Bytes → EntityId) (v w : Visit) where
  -- What is true of a database with a log that began as `genesis_with_wal`: the transactions `rs`
  -- that gave its store are on the disk. Behind them are those in doubt: they would follow, and
  -- some are on the disk, but they were not acknowledged.
  pub record IsDurable (serialize : List Datom → Option Bytes) (db : Database p)
      (rs doubt : List TxReceipt) : Type 0 where
    pub log : Wal
    pub acknowledged : List WalEntry
    pub synced : List WalEntry
    pub later : List WalEntry
    pub store : Store p
    pub after_doubt : Store p
    pub attached : db.wal ≡ some log
    pub is_log : IsLog log (acknowledged ++ synced) later
    pub frames : IsFrames serialize acknowledged rs
    pub doubt_frames : IsFrames serialize (synced ++ later) doubt
    pub history : Transacted p from_content v w (genesis p) rs store
    pub current : opened p db.current ≡ opened p store
    pub in_doubt : Transacted p from_content v w store doubt after_doubt

  pub store-IsCanonical :
      {serialize : List Datom → Option Bytes} {db : Database p} {rs doubt : List TxReceipt}
      (h : IsDurable serialize db rs doubt)
      → IsCanonical p.datom_order (datoms p h.store)
  store-IsCanonical {rs = rs} h =
      Transacted-IsCanonical p from_content v w rs (genesis p) h.store
        (genesis-IsCanonical p from_content v w) h.history

  pub genesis-IsDurable :
      (serialize : List Datom → Option Bytes) → IsDurable serialize (genesis_with_wal p) [] []
  unfolding genesis_with_wal build
  genesis-IsDurable serialize = record {
    log = create;
    acknowledged = [];
    synced = [];
    later = [];
    store = genesis p;
    after_doubt = genesis p;
    attached = refl;
    is_log = IsLog-create;
    frames = tt;
    doubt_frames = tt;
    history = done;
    current = refl;
    in_doubt = done;
  }

  -- Both orders of evolution give the same schema for what the transaction stores.
  abbrev pub IsSteady : Committed → Store p → Type 0
  IsSteady tx s =
      (ctx : TransactContext) (t : Store p) (r : TxReceipt)
      → Apply.transact p v from_content tx ctx s ≡ (t, ok r)
      → evolve_schema w s.schema r.datoms ≡ evolve_schema v s.schema r.datoms

  -- The same for each transaction of a batch, with whatever identifiers.
  abbrev pub IsSteadyBatch : List Committed → Store p → Type 0
  IsSteadyBatch txs s =
      (batches : List (List Datom × TxId))
      → map (λ b. b.0) batches ≡ map (λ (c : Committed). c.datoms) txs
      → SteadyEach p from_content v w batches s

  -- A receipt that the store gives for the transaction, in some context
  abbrev pub IsReceipt : Committed → Store p → List TxReceipt → Type 0
  IsReceipt tx s qs =
      (ctx : TransactContext) × (t : Store p) × (r : TxReceipt) × (Apply.transact p v from_content
          tx ctx s
        ≡ (t, ok r))
      × (qs ≡ r ∷ [])

  -- Receipts that the store gives for a batch, with some identifiers, one for each of its transactions
  abbrev pub AreReceipts : List Committed → Store p → List TxReceipt → Type 0
  AreReceipts txs s qs =
      (batches : List (List Datom × TxId)) × (t : Store p) × (map (λ b. b.0) batches
        ≡ map (λ (c : Committed). c.datoms) txs)
      × (batch_splice_transact p v from_content batches s ≡ (t, ok qs))
      × (length qs ≡ length txs)

  module _ (serialize : List Datom → Option Bytes) where
    -- The store is as it was, and so are the transactions in doubt, or, where there were none, they
    -- are the first ones of the failed call now, or none again.
    abbrev pub Failed :
        (List TxReceipt → Type 0)
        → Database p
        → List TxReceipt
        → List TxReceipt
        → Database p
        → Type 0
    Failed call db rs doubt db' =
        (db'.current ≡ db.current)
        × (doubt' : List TxReceipt) × (((doubt ≡ [])
              × (back : List TxReceipt) × call (doubt' ++ back))
            ⊎ (doubt' ≡ doubt))
        × IsDurable serialize db' rs doubt'

    -- A transaction is acknowledged if none is in doubt, and is then the next of those on the disk.
    abbrev pub Answered :
        Committed
        → Database p
        → List TxReceipt
        → List TxReceipt
        → Database p × Result DbError TxReceipt
        → Type 0
    Answered tx db rs doubt (db', err e) = Failed (IsReceipt tx db.current) db rs doubt db'
    Answered tx db rs doubt (db', ok r) =
        (doubt ≡ []) × IsReceipt tx db.current (r ∷ []) × IsDurable serialize db' (rs ++ r ∷ []) []

    -- The same of a batch
    abbrev pub AnsweredBatch :
        List Committed
        → Database p
        → List TxReceipt
        → List TxReceipt
        → Database p × Result DbError (List TxReceipt)
        → Type 0
    AnsweredBatch txs db rs doubt (db', err e) = Failed (AreReceipts txs db.current) db rs doubt db'
    AnsweredBatch txs db rs doubt (db', ok qs) =
        ((doubt ≡ []) ⊎ (qs ≡ []))
        × AreReceipts txs db.current qs
        × IsDurable serialize db' (rs ++ qs) doubt

    -- A database with the same log, and a store that differs in its representation at most
    pub moved :
        (db db' : Database p) (rs doubt : List TxReceipt)
        → IsDurable serialize db rs doubt
        → db'.wal ≡ db.wal
        → db'.current ≡ db.current
        → IsDurable serialize db' rs doubt
    moved db db' rs doubt h e f = record {
      log = h.log;
      acknowledged = h.acknowledged;
      synced = h.synced;
      later = h.later;
      store = h.store;
      after_doubt = h.after_doubt;
      attached = e ∙ h.attached;
      is_log = h.is_log;
      frames = h.frames;
      doubt_frames = h.doubt_frames;
      history = h.history;
      current = ap (opened p) f ∙ h.current;
      in_doubt = h.in_doubt;
    }
