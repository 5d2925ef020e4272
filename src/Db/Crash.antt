-- ===== src/Db/Crash.antt =====
-- What a crash leaves of a database (ferratomic-core/src/db, INV-FERR-014).
use ferratomic.Prelude.{
  ℕ, ◌≤◌, ◌≡◌, sym, ap, ◌∙◌, subst, Option, none, some, List, [], ◌++◌, append_assoc, length,
}
use ferratomic.Prelude.Bytes.{Bytes}
use ferratomic.Prelude.Results.{ok}
use ferratomic.Datom.Types.{EntityId, Datom}
use ferratomic.Positional.MergeLaws.{IsCanonical}
use ferratomic.Store.Evolution.{Visit}
use ferratomic.Store.Merge.{Parts, Store, datoms}
use ferratomic.Store.Genesis.{genesis}
use ferratomic.Store.Apply.{TxReceipt}
use ferratomic.Store.Written.{opened}
use ferratomic.Store.Recovery.{Transacted}
use ferratomic.Wal.Frame.{WalEntry}
use ferratomic.Wal.State.{Wal, open_wal, recover}
use ferratomic.Wal.Durable.{IsLog}
use ferratomic.Wal.Recover.{recover-IsLog}
use ferratomic.Db.State.{Database}
use ferratomic.Db.Entries.{IsFrames, IsFrames-append, IsFrames-split}
use ferratomic.Db.History.{Transacted-append, Transacted-split, Transacted-same}
use ferratomic.Db.Outcome.{shorter}
use ferratomic.Db.Durable.{store-IsCanonical, IsDurable}

module _ (p : Parts) (from_content : Bytes → EntityId) (v w : Visit)
    (serialize : List Datom → Option Bytes) where
  -- The log that holds these transactions and no more, and the store that they give
  pub record OnDisk (content : Bytes) (rs : List TxReceipt) (u : Store p) : Type 0 where
    pub log : Wal
    pub entries : List WalEntry
    pub store : Store p
    pub recovered : recover none (open_wal content) ≡ some (log, ok entries)
    pub is_log : IsLog log entries []
    pub frames : IsFrames serialize entries rs
    pub history : Transacted p from_content v w (genesis p) rs store
    pub same : opened p store ≡ opened p u

  -- What is left are the transactions before the crash, then the first of at most `n` that were
  -- not acknowledged.
  pub record Surviving (n : ℕ) (content : Bytes) (db : Database p) (rs : List TxReceipt)
      : Type 0 where
    pub more : List TxReceipt
    pub after : Store p
    pub few : length more ≤ n
    pub ran : Transacted p from_content v w db.current more after
    pub on_disk : OnDisk content (rs ++ more) after

  pub crash :
      (db : Database p) (rs doubt : List TxReceipt) (s t : Bytes)
      (h : IsDurable p from_content v w serialize db rs doubt)
      → h.log.file.content ≡ s ++ t
      → length h.log.file.durable ≤ length s
      → Surviving (length doubt) s db rs
  crash db rs doubt s t h cut enough =
      let (log, kept, lost, split, e, is) =
        recover-IsLog h.log (h.acknowledged ++ h.synced) h.later s t h.is_log cut enough in
      let in_file : h.synced ++ h.later ≡ (h.synced ++ kept) ++ lost =
        ap (λ l. h.synced ++ l) split ∙ sym (append_assoc h.synced kept lost) in
      let (front, back, parts, f, g) =
        IsFrames-split serialize (h.synced ++ kept) lost doubt (rw in_file at h.doubt_frames) in
      let (m, before, behind) =
        Transacted-split p from_content v w front back h.store h.after_doubt
          (rw parts at h.in_doubt) in
      let canonical : IsCanonical p.datom_order (datoms p db.current) =
        subst (IsCanonical p.datom_order) (sym (ap (datoms p) h.current))
          (store-IsCanonical p from_content v w h) in
      let (u, ran, same) =
        Transacted-same p from_content v w front h.store db.current m canonical (sym h.current)
          before in
      let regroup : (h.acknowledged ++ h.synced) ++ kept ≡ h.acknowledged ++ (h.synced ++ kept) =
        append_assoc h.acknowledged h.synced kept in
      record {
        more = front;
        after = u;
        few = shorter front back doubt parts;
        ran = ran;
        on_disk = record {
          log = log;
          entries = h.acknowledged ++ (h.synced ++ kept);
          store = m;
          recovered = rw regroup at e;
          is_log = rw regroup at is;
          frames = IsFrames-append serialize h.acknowledged (h.synced ++ kept) rs front h.frames f;
          history =
              Transacted-append p from_content v w rs front (genesis p) h.store m h.history before;
          same = sym same;
        };
      }
