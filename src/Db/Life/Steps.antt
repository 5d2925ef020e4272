-- ===== src/Db/Life/Steps.antt =====
-- The steps of a database over its life (ferratomic-core/src: db, storage/recovery.rs).
use ferratomic.Prelude.{ℕ, suc, ◌≤◌, ◌≡◌, Bool, Option, none, some, List, ◌++◌, length}
use ferratomic.Prelude.Bytes.{Bytes}
use ferratomic.Prelude.Results.{ok}
use ferratomic.Datom.Types.{EntityId, Datom}
use ferratomic.Datom.Hash.{Hasher}
use ferratomic.Store.Evolution.{Visit}
use ferratomic.Store.Merge.{Parts, Store}
use ferratomic.Store.Written.{opened}
use ferratomic.Tx.Commit.{Committed}
use ferratomic.Wal.State.{Wal, all}
use ferratomic.Db.Wire.{WireDatom}
use ferratomic.Db.State.{Calls, Database, genesis_with_wal, transact, batch_transact}
use ferratomic.Db.Signing.{Keys, transact_signed}
use ferratomic.Db.ColdStart.{ColdStartResult, cold_start}
use ferratomic.Db.Durable.{IsSteady, IsSteadyBatch}

module _ (p : Parts) (from_content : Bytes → EntityId) (v w : Visit)
    (serialize : List Datom → Option Bytes) (deserialize : Bytes → Option (List WireDatom)) where
  -- What loading gives of a checkpoint of this store: the store, in some representation, or nothing.
  abbrev pub Loads : Option (Store p) → Store p → Type 0
  Loads none s = Unit
  Loads (some y) s = opened p y ≡ opened p s

  -- A database that began empty with a log, with what its checkpoint loads as, if there is one:
  -- after any calls of `transact`, `transact_signed` and `batch_transact` (of at most `n` + 1
  -- transactions), any checkpoints, and any restarts, each on a front of the log that reaches to
  -- the last sync. Writes are whole, syncs may fail.
  pub data Life (n : ℕ) : Database p → Option (Option (Store p)) → Type 1 where
    created : Life n (genesis_with_wal p) none
    called :
        {db : Database p} {checkpoint : Option (Option (Store p))} (calls : Calls) (tx : Committed)
        → Life n db checkpoint
        → calls.write ≡ all
        → IsSteady p from_content v w tx db.current
        → Life n (transact p v from_content serialize calls tx db).0 checkpoint
    signed :
        {db : Database p} {checkpoint : Option (Option (Store p))} {H : Type 0} (blake : Hasher H)
        (keys : Keys) (key : keys.SigningKey) (calls : Calls) (tx : Committed)
        → Life n db checkpoint
        → calls.write ≡ all
        → IsSteady p from_content v w tx db.current
        → Life n
            (transact_signed p v from_content serialize blake keys calls tx key db).0
            checkpoint
    batched :
        {db : Database p} {checkpoint : Option (Option (Store p))} (calls : ℕ → Calls)
        (txs : List Committed)
        → Life n db checkpoint
        → length txs ≤ suc n
        → ((i : ℕ) → (calls i).write ≡ all)
        → IsSteadyBatch p from_content v w txs db.current
        → Life n (batch_transact p v from_content serialize calls txs db).0 checkpoint
    saved :
        {db : Database p} {checkpoint : Option (Option (Store p))} (loaded : Option (Store p))
        → Life n db checkpoint
        → Loads loaded db.current
        → Life n db (some loaded)
    restarted :
        {db : Database p} {checkpoint : Option (Option (Store p))} {log : Wal} (creates : Bool)
        (started : ColdStartResult p w deserialize) (s t : Bytes)
        → Life n db checkpoint
        → db.wal ≡ some log
        → log.file.content ≡ s ++ t
        → length log.file.durable ≤ length s
        → cold_start p w deserialize creates checkpoint (some s) ≡ some (ok started)
        → Life n started.database checkpoint
