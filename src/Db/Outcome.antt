-- ===== src/Db/Outcome.antt =====
-- What a write to the log makes of the database (ferratomic-core/src/db/transact.rs).
use ferratomic.Prelude.{
  ◌≤◌, ◌≡◌, refl, ap, subst, ◌∙◌, inl, Option, some, List, [], ◌∷◌, ◌++◌, append-nil, length,
  length-append, arith,
}
use ferratomic.Prelude.Bytes.{Bytes}
use ferratomic.Prelude.Results.{Result, ok, err}
use ferratomic.Clock.TxId.{TxId}
use ferratomic.Datom.Types.{EntityId, Datom}
use ferratomic.Store.Evolution.{Visit}
use ferratomic.Store.Merge.{Parts, Store}
use ferratomic.Store.Genesis.{genesis}
use ferratomic.Store.Apply.{TxReceipt}
use ferratomic.Store.Written.{opened}
use ferratomic.Store.Recovery.{Transacted, done}
use ferratomic.Wal.Frame.{WalEntry}
use ferratomic.Wal.State.{WalError, Wal}
use ferratomic.Wal.Durable.{IsLog}
use ferratomic.Db.State.{Database, publish, conclude, conclude_batch}
use ferratomic.Db.Entries.{IsFrames, IsFrames-append, no_frames}
use ferratomic.Db.History.{Transacted-append, Transacted-split}
use ferratomic.Db.Logged.{Wrote}
use ferratomic.Tx.Commit.{Committed}
use ferratomic.Db.Durable.{IsDurable, IsReceipt, AreReceipts, Failed, Answered, AnsweredBatch}

-- A log with nothing behind the acknowledged entries
pub no_more :
    (log : Wal) (before es later : List WalEntry)
    → IsLog log (before ++ es) later
    → es ++ later ≡ []
    → IsLog log before []
no_more log before [] later is e =
    let none_later : later ≡ [] = e in rw (none_later, append-nil before) at is
no_more log before (x ∷ es) later is e = cc

pub shorter : (front back qs : List TxReceipt) → qs ≡ front ++ back → length front ≤ length qs
shorter front back qs e =
    let sum = length-append front back in
    let same : length qs ≡ length (front ++ back) = ap length e in omega (arith, sum, same)

module _ (p : Parts) (from_content : Bytes → EntityId) (v w : Visit)
    (serialize : List Datom → Option Bytes) (db : Database p) (rs : List TxReceipt)
    (h : IsDurable p from_content v w serialize db rs []) (qs : List TxReceipt) (u : Store p)
    (ran : Transacted p from_content v w h.store qs u) where
  pub unblocked : IsLog h.log h.acknowledged []
  unblocked =
      no_more h.log h.acknowledged h.synced h.later h.is_log
        (no_frames serialize (h.synced ++ h.later) h.doubt_frames)

  all_written :
      (db' : Database p) (log : Wal) (es : List WalEntry)
      → db'.wal ≡ some log
      → IsLog log (h.acknowledged ++ es) []
      → IsFrames serialize es qs
      → opened p db'.current ≡ opened p u
      → IsDurable p from_content v w serialize db' (rs ++ qs) []
  all_written db' log es wal is f current = record {
    log = log;
    acknowledged = h.acknowledged ++ es;
    synced = [];
    later = [];
    store = u;
    after_doubt = u;
    attached = wal;
    is_log = rw append-nil is;
    frames = IsFrames-append serialize h.acknowledged es rs qs h.frames f;
    doubt_frames = tt;
    history = Transacted-append p from_content v w rs qs (genesis p) h.store u h.history ran;
    current = current;
    in_doubt = done;
  }

  some_written :
      (db' : Database p) (log : Wal) (es later : List WalEntry) (front back : List TxReceipt)
      → db'.wal ≡ some log
      → db'.current ≡ db.current
      → IsLog log (h.acknowledged ++ es) later
      → qs ≡ front ++ back
      → IsFrames serialize (es ++ later) front
      → IsDurable p from_content v w serialize db' rs front
  some_written db' log es later front back wal current is split f =
      let (m, before, after) =
        Transacted-split p from_content v w front back h.store u (rw split at ran) in
      record {
        log = log;
        acknowledged = h.acknowledged;
        synced = es;
        later = later;
        store = h.store;
        after_doubt = m;
        attached = wal;
        is_log = is;
        frames = h.frames;
        doubt_frames = f;
        history = h.history;
        current = ap (opened p) current ∙ h.current;
        in_doubt = before;
      }

  -- After a write that failed, the first ones of the call are in doubt.
  pub write-Failed :
      (call : List TxReceipt → Type 0) (y : Option Wal) (e : WalError)
      → call qs
      → Wrote serialize h.acknowledged qs (y, err e)
      → Failed p from_content v w serialize call db rs [] (record db { wal = y })
  write-Failed call y e made (log, es, later, front, back, wal, is, split, f) = (
    refl,
    front,
    inl (refl, back, subst call split made),
    some_written (record db { wal = y }) log es later front back wal refl is split f,
  )

  pub conclude_batch-Answered :
      (txs : List Committed) (t : Store p) (x : Option Wal × Result WalError (Unit {0}))
      → AreReceipts p from_content v w txs db.current qs
      → opened p t ≡ opened p u
      → Wrote serialize h.acknowledged qs x
      → AnsweredBatch p from_content v w serialize txs db rs []
          (conclude_batch p v from_content serialize t qs db x)
  unfolding publish
  conclude_batch-Answered txs t (y, err e) made same wrote =
      write-Failed (AreReceipts p from_content v w txs db.current) y e made wrote
  conclude_batch-Answered txs t (y, ok unit) made same (log, es, wal, is, f) =
      (inl refl, made, all_written (publish p t (record db { wal = y })) log es wal is f same)

module _ (p : Parts) (from_content : Bytes → EntityId) (v w : Visit)
    (serialize : List Datom → Option Bytes) (db : Database p) (rs : List TxReceipt)
    (h : IsDurable p from_content v w serialize db rs []) (r : TxReceipt) (u : Store p)
    (ran : Transacted p from_content v w h.store (r ∷ []) u) where
  pub conclude-Answered :
      (tx : Committed) (now : TxId) (t : Store p) (x : Option Wal × Result WalError (Unit {0}))
      → IsReceipt p from_content v w tx db.current (r ∷ [])
      → opened p t ≡ opened p u
      → Wrote serialize h.acknowledged (r ∷ []) x
      → Answered p from_content v w serialize tx db rs []
          (conclude p v from_content serialize now t r db x)
  unfolding publish
  conclude-Answered tx now t (y, err e) made same wrote =
      write-Failed p from_content v w serialize db rs h (r ∷ []) u ran
        (IsReceipt p from_content v w tx db.current) y e made wrote
  conclude-Answered tx now t (y, ok unit) made same (log, es, wal, is, f) = (
    refl,
    made,
    all_written p from_content v w serialize db rs h (r ∷ []) u ran _ log es wal is f same,
  )
