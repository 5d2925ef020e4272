-- ===== src/Db/Life/Kept.antt =====
-- What the steps of a database keep true (INV-FERR-008, INV-FERR-014).
use ferratomic.Prelude.{
  ℕ, suc, ◌≤◌, ◌≡◌, sym, ◌∙◌, inl, inr, Bool, Option, none, some, List, [], ◌∷◌, ◌++◌, length,
  append-nil, length-append, ap, arith,
}
use ferratomic.Prelude.Bytes.{Bytes}
use ferratomic.Prelude.Results.{Result, ok, err}
use ferratomic.Datom.Types.{EntityId, Datom}
use ferratomic.Store.Evolution.{Visit}
use ferratomic.Store.Merge.{Parts, Store}
use ferratomic.Store.Apply.{TxReceipt}
use ferratomic.Wal.State.{Wal}
use ferratomic.Db.Wire.{WireDatom}
use ferratomic.Db.State.{DbError, Database, transact, batch_transact}
use ferratomic.Db.Signing.{transact_signed}
use ferratomic.Db.ColdStart.{ColdStartResult, cold_start}
use ferratomic.Db.Entries.{ReadsBack}
use ferratomic.Db.Durable.{
  genesis-IsDurable, IsDurable, IsReceipt, AreReceipts, Failed, Answered, AnsweredBatch,
}
use ferratomic.Tx.Commit.{Committed}
use ferratomic.Db.Answers.{transact-Answered, transact_signed-Answered}
use ferratomic.Db.Batches.{batch_transact-Answered}
use ferratomic.Db.Crash.{Surviving, crash}
use ferratomic.Db.Restart.{Saved, Saved-append, cold_start-Starts}
use ferratomic.Db.Life.Steps.{Loads, Life, created, called, signed, batched, saved, restarted}

module _ (p : Parts) (from_content : Bytes → EntityId) (v w : Visit)
    (serialize : List Datom → Option Bytes) (deserialize : Bytes → Option (List WireDatom)) where
  module _ (n : ℕ) (reads_back : ReadsBack serialize deserialize) where
    -- What is true of a database over its life
    pub record Durable (db : Database p) (checkpoint : Option (Option (Store p))) : Type 0 where
      pub receipts : List TxReceipt
      pub doubt : List TxReceipt
      pub few : length doubt ≤ suc n
      pub durable : IsDurable p from_content v w serialize db receipts doubt
      pub kept : Saved p from_content v w serialize deserialize reads_back receipts checkpoint

    after_failure :
        (db db' : Database p) (checkpoint : Option (Option (Store p)))
        (call : List TxReceipt → Type 0) (d : Durable db checkpoint)
        → ((qs : List TxReceipt) → call qs → length qs ≤ suc n)
        → Failed p from_content v w serialize call db d.receipts d.doubt db'
        → Durable db' checkpoint
    after_failure db db' checkpoint call d small (same, doubt', inl (free, back, made), h) =
        record {
          receipts = d.receipts;
          doubt = doubt';
          few = omega (arith, small (doubt' ++ back) made, length-append doubt' back);
          durable = h;
          kept = d.kept;
        }
    after_failure db db' checkpoint call d small (same, doubt', inr kept, h) = record {
      receipts = d.receipts;
      doubt = doubt';
      few = rw kept d.few;
      durable = h;
      kept = d.kept;
    }

    after_success :
        (db db' : Database p) (checkpoint : Option (Option (Store p))) (d : Durable db checkpoint)
        (qs doubt : List TxReceipt)
        → length doubt ≤ suc n
        → IsDurable p from_content v w serialize db' (d.receipts ++ qs) doubt
        → Durable db' checkpoint
    after_success db db' checkpoint d qs doubt few h = record {
      receipts = d.receipts ++ qs;
      doubt = doubt;
      few = few;
      durable = h;
      kept =
          Saved-append p from_content v w serialize deserialize reads_back d.receipts qs checkpoint
            d.kept;
    }

    after_call :
        (db : Database p) (checkpoint : Option (Option (Store p))) (tx : Committed)
        (x : Database p × Result DbError TxReceipt) (d : Durable db checkpoint)
        → Answered p from_content v w serialize tx db d.receipts d.doubt x
        → Durable x.0 checkpoint
    after_call db checkpoint tx (db', err e) d h =
        after_failure db db' checkpoint (IsReceipt p from_content v w tx db.current) d
          (λ qs (ctx, t, r, made, one). omega (arith, ap length one)) h
    after_call db checkpoint tx (db', ok r) d (free, made, h) =
        after_success db db' checkpoint d (r ∷ []) [] (omega arith) h

    after_batch :
        (db : Database p) (checkpoint : Option (Option (Store p))) (txs : List Committed)
        (x : Database p × Result DbError (List TxReceipt)) (d : Durable db checkpoint)
        → length txs ≤ suc n
        → AnsweredBatch p from_content v w serialize txs db d.receipts d.doubt x
        → Durable x.0 checkpoint
    after_batch db checkpoint txs (db', err e) d small h =
        after_failure db db' checkpoint (AreReceipts p from_content v w txs db.current) d
          (λ qs (batches, t, paired, made, count). omega (arith, count, small)) h
    after_batch db checkpoint txs (db', ok qs) d small (free, made, h) =
        after_success db db' checkpoint d qs d.doubt d.few h

    after_save :
        (db : Database p) (checkpoint : Option (Option (Store p))) (loaded : Option (Store p))
        (d : Durable db checkpoint)
        → Loads p from_content v w serialize deserialize loaded db.current
        → Saved p from_content v w serialize deserialize reads_back d.receipts (some loaded)
    after_save db checkpoint none d h = tt
    after_save db checkpoint (some y) d h = record {
      front = d.receipts;
      back = [];
      saved = d.durable.store;
      parts = sym (append-nil d.receipts);
      history = d.durable.history;
      same = h ∙ d.durable.current;
    }

    pub survives :
        {db : Database p} {checkpoint : Option (Option (Store p))} {log : Wal} (s t : Bytes)
        (d : Durable db checkpoint)
        → db.wal ≡ some log
        → log.file.content ≡ s ++ t
        → length log.file.durable ≤ length s
        → Surviving p from_content v w serialize (suc n) s db d.receipts
    survives {db} {checkpoint} {log} s t d attached cut enough =
        let same : log ≡ d.durable.log = cc (attached, d.durable.attached) in
        let left =
          crash p from_content v w serialize db d.receipts d.doubt s t d.durable (rw same at cut)
            (rw same at enough) in
        record {
          more = left.more;
          after = left.after;
          few = omega (arith, left.few, d.few);
          ran = left.ran;
          on_disk = left.on_disk;
        }

    after_restart :
        (db : Database p) (checkpoint : Option (Option (Store p))) (creates : Bool)
        (started : ColdStartResult p w deserialize) (s : Bytes) (d : Durable db checkpoint)
        → Surviving p from_content v w serialize (suc n) s db d.receipts
        → cold_start p w deserialize creates checkpoint (some s) ≡ some (ok started)
        → Durable started.database checkpoint
    after_restart db checkpoint creates started s d left e =
        let kept =
          Saved-append p from_content v w serialize deserialize reads_back d.receipts left.more
            checkpoint d.kept in
        let (x, run, same, h) =
          cold_start-Starts p from_content v w serialize deserialize reads_back creates checkpoint s
            (d.receipts ++ left.more) left.after left.on_disk kept in
        let found : x ≡ started = cc (run, e) in
        after_success db started.database checkpoint d left.more [] (omega arith) (rw found at h)

    pub Life-Durable :
        {db : Database p} {checkpoint : Option (Option (Store p))}
        → Life p from_content v w serialize deserialize n db checkpoint
        → Durable db checkpoint
    Life-Durable created = record {
      receipts = [];
      doubt = [];
      few = omega arith;
      durable = genesis-IsDurable p from_content v w serialize;
      kept = tt;
    }
    Life-Durable (called {db = db} {checkpoint = c} calls tx life whole steady) =
        let d = Life-Durable life in
        after_call db c tx (transact p v from_content serialize calls tx db) d (
          transact-Answered p from_content v w serialize calls tx db d.receipts d.doubt d.durable
            whole steady)
    Life-Durable (signed {db = db} {checkpoint = c} blake keys key calls tx life whole steady) =
        let d = Life-Durable life in
        after_call db c tx (transact_signed p v from_content serialize blake keys calls tx key db) d
          (transact_signed-Answered p from_content v w serialize blake keys key calls tx db
            d.receipts d.doubt d.durable whole steady)
    Life-Durable (batched {db = db} {checkpoint = c} calls txs life small whole steady) =
        let d = Life-Durable life in
        after_batch db c txs (batch_transact p v from_content serialize calls txs db) d small (
          batch_transact-Answered p from_content v w serialize calls txs db d.receipts d.doubt
            d.durable whole steady)
    Life-Durable (saved {db = db} {checkpoint = c} loaded life h) =
        let d = Life-Durable life in
        record {
          receipts = d.receipts;
          doubt = d.doubt;
          few = d.few;
          durable = d.durable;
          kept = after_save db c loaded d h;
        }
    Life-Durable
          (restarted {db = db} {checkpoint = c} creates started s t life attached cut enough e) =
        let d = Life-Durable life in
        after_restart db c creates started s d (survives s t d attached cut enough) e
