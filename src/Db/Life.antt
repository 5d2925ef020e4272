-- ===== src/Db/Life.antt =====
-- A database over its life, crashes included (ferratomic-core/src: db, storage/recovery.rs;
-- INV-FERR-014, INV-FERR-028).
pub mod Steps
pub mod Kept
use ferratomic.Prelude.{
  ℕ, suc, ◌≤◌, ◌≡◌, sym, ap, ◌∙◌, inl, inr, Bool, Option, none, some, List, [], ◌∷◌, ◌++◌, length,
  append-nil, arith,
}
use ferratomic.Prelude.Bytes.{Bytes}
use ferratomic.Prelude.Results.{Result, ok, err}
use ferratomic.Datom.Types.{EntityId, Datom}
use ferratomic.Datom.Hash.{Hasher}
use ferratomic.Store.Evolution.{Visit}
use ferratomic.Store.Merge.{Parts, Store}
use ferratomic.Store.Apply.{TxReceipt}
use ferratomic.Store.Written.{opened}
use ferratomic.Store.Recovery.{Transacted}
use ferratomic.Tx.Commit.{Committed}
use ferratomic.Wal.State.{Wal, all}
use ferratomic.Db.Wire.{WireDatom}
use ferratomic.Db.State.{DbError, Calls, Database, genesis_with_wal, transact, batch_transact}
use ferratomic.Db.Signing.{Keys, transact_signed}
use ferratomic.Db.Recover.{recover_from_wal}
use ferratomic.Db.ColdStart.{ColdStartResult, cold_start}
use ferratomic.Db.Entries.{ReadsBack}
use ferratomic.Db.Durable.{
  genesis-IsDurable, IsDurable, IsSteady, IsSteadyBatch, Failed, Answered, AnsweredBatch,
}
use ferratomic.Db.Answers.{transact-Answered, transact_signed-Answered}
use ferratomic.Db.Batches.{batch_transact-Answered}
use ferratomic.Db.Crash.{Surviving, crash}
use ferratomic.Db.Restart.{
  Saved, LoadsFront, Saved-append, recover_from_wal-Recovers, cold_start-Starts,
}
use ferratomic.Db.Life.Steps.{Life}
use ferratomic.Db.Life.Kept.{survives, Life-Durable}

module _ (p : Parts) (from_content : Bytes → EntityId) (v w : Visit) where
  -- The store is that of `db` after at most `n` more transactions, up to its representation.
  abbrev pub IsRecovered : ℕ → Database p → Store p → Type 0
  IsRecovered n db s =
      (qs : List TxReceipt) × (u : Store p) × (length qs ≤ n)
      × Transacted p from_content v w db.current qs u
      × (opened p s ≡ opened p u)

module _ (p : Parts) (from_content : Bytes → EntityId) (v w : Visit)
    (serialize : List Datom → Option Bytes) (deserialize : Bytes → Option (List WireDatom)) where
  module _ (n : ℕ) (reads_back : ReadsBack serialize deserialize) where
    -- After any life of the database, a crash that leaves a front of the log reaching to the last
    -- sync is recovered from by the log alone: recovery succeeds, with the store as it was, up to
    -- its representation, or with that store after at most `n` + 1 more transactions that follow
    -- it, which were not acknowledged, where no batch had more than `n` + 1.
    pub recover_from_wal-Life :
        {db : Database p} {checkpoint : Option (Option (Store p))} {log : Wal} (s t : Bytes)
        → Life p from_content v w serialize deserialize n db checkpoint
        → db.wal ≡ some log
        → log.file.content ≡ s ++ t
        → length log.file.durable ≤ length s
        → (db' : Database p) × (recover_from_wal p w deserialize s ≡ some (ok db'))
          × IsRecovered p from_content v w (suc n) db db'.current
    recover_from_wal-Life s t life attached cut enough =
        let d = Life-Durable p from_content v w serialize deserialize n reads_back life in
        let left =
          survives p from_content v w serialize deserialize n reads_back s t d attached cut
            enough in
        let (x, run, same, h) =
          recover_from_wal-Recovers p from_content v w serialize deserialize reads_back s
            (d.receipts ++ left.more) left.after left.on_disk in
        (x, run, (left.more, left.after, left.few, left.ran, same))

    -- After any life of the database, a cold start on the checkpoint, if there is one, and a front
    -- of the log that reaches to the last sync succeeds, whether the checkpoint loads or not: with
    -- the store as it was, up to its representation, or with that store after at most `n` + 1 more
    -- transactions that follow it, which were not acknowledged, where no batch had more than
    -- `n` + 1.
    pub cold_start-Life :
        {db : Database p} {checkpoint : Option (Option (Store p))} {log : Wal} (creates : Bool)
        (s t : Bytes)
        → Life p from_content v w serialize deserialize n db checkpoint
        → db.wal ≡ some log
        → log.file.content ≡ s ++ t
        → length log.file.durable ≤ length s
        → (started : ColdStartResult p w deserialize) × (cold_start p w deserialize creates
              checkpoint
              (some s)
            ≡ some (ok started))
          × IsRecovered p from_content v w (suc n) db started.database.current
    cold_start-Life {checkpoint = c} creates s t life attached cut enough =
        let d = Life-Durable p from_content v w serialize deserialize n reads_back life in
        let left =
          survives p from_content v w serialize deserialize n reads_back s t d attached cut
            enough in
        let kept =
          Saved-append p from_content v w serialize deserialize reads_back d.receipts left.more c
            d.kept in
        let (x, run, same, h) =
          cold_start-Starts p from_content v w serialize deserialize reads_back creates c s
            (d.receipts ++ left.more) left.after left.on_disk kept in
        (x, run, (left.more, left.after, left.few, left.ran, same))
