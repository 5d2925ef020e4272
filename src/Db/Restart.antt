-- ===== src/Db/Restart.antt =====
-- The ways to recover from what is on the disk (ferratomic-core: db/recover.rs,
-- storage/recovery.rs; INV-FERR-013, INV-FERR-014, INV-FERR-028).
use ferratomic.Prelude.{
  ◌≡◌, refl, ap, ◌∙◌, Bool, true, Option, none, some, List, [], ◌∷◌, ◌++◌, append-nil, append_assoc,
  All,
}
use ferratomic.Prelude.Bytes.{Bytes}
use ferratomic.Prelude.Results.{Result, ok}
use ferratomic.Datom.Types.{EntityId, Datom}
use ferratomic.Store.Evolution.{Visit}
use ferratomic.Store.Merge.{Parts, Store}
use ferratomic.Store.Genesis.{genesis}
use ferratomic.Store.Apply.{TxReceipt}
use ferratomic.Store.Written.{opened}
use ferratomic.Store.Recovery.{Transacted, done, Transacted-unique}
use ferratomic.Wal.Frame.{WalEntry}
use ferratomic.Db.Wire.{WireDatom}
use ferratomic.Db.State.{DbError, Database, build}
use ferratomic.Db.Recover.{recover_from_wal, recover_from_checkpoint}
use ferratomic.Db.ColdStart.{
  checkpoint_plus_wal, wal_only, ColdStartResult, try_checkpoint_plus_wal, try_wal_only, cold_start,
}
use ferratomic.Db.Entries.{ReadsBack, IsFrames-parts, replay_frames}
use ferratomic.Db.History.{genesis-IsCanonical, Transacted-split}
use ferratomic.Db.Checkpoint.{replayed_behind}
use ferratomic.Db.Crash.{OnDisk}
use ferratomic.Db.Durable.{IsDurable}

module _ (p : Parts) (from_content : Bytes → EntityId) (v w : Visit)
    (serialize : List Datom → Option Bytes) (deserialize : Bytes → Option (List WireDatom))
    (reads_back : ReadsBack serialize deserialize) where
  none_dropped : (es : List WalEntry) → All (λ (e : WalEntry). true ≡ true) es
  none_dropped [] = tt
  none_dropped (e ∷ es) = (refl, none_dropped es)

  -- What recovery gives of a log that holds the transactions of `rs`
  abbrev pub Recovers : Option (Result DbError (Database p)) → List TxReceipt → Store p → Type 0
  Recovers x rs u =
      (db : Database p) × (x ≡ some (ok db))
      × (opened p db.current ≡ opened p u)
      × IsDurable p from_content v w serialize db rs []

  rebuilt :
      (content : Bytes) (rs : List TxReceipt) (u z : Store p)
      (d : OnDisk p from_content v w serialize content rs u)
      → opened p z ≡ opened p d.store
      → IsDurable p from_content v w serialize (build p z (some d.log)) rs []
  unfolding build
  rebuilt content rs u z d same = record {
    log = d.log;
    acknowledged = d.entries;
    synced = [];
    later = [];
    store = d.store;
    after_doubt = d.store;
    attached = refl;
    is_log = rw append-nil d.is_log;
    frames = d.frames;
    doubt_frames = tt;
    history = d.history;
    current = same;
    in_doubt = done;
  }

  pub recover_from_wal-Recovers :
      (content : Bytes) (rs : List TxReceipt) (u : Store p)
      → OnDisk p from_content v w serialize content rs u
      → Recovers (recover_from_wal p w deserialize content) rs u
  unfolding recover_from_wal build
  recover_from_wal-Recovers content rs u d =
      let (z, run, same) =
        replay_frames p from_content v w serialize deserialize reads_back (λ n. true) d.entries rs
          (genesis p) d.store (genesis p) (none_dropped d.entries) d.frames
          (genesis-IsCanonical p from_content v w) refl d.history in
      (
        build p z (some d.log),
        rw (d.recovered, run) refl,
        same ∙ d.same,
        rebuilt content rs u z d same,
      )

  -- A checkpoint loads as the store after the first of the transactions, or not at all.
  pub record LoadsFront (rs : List TxReceipt) (y : Store p) : Type 0 where
    pub front : List TxReceipt
    pub back : List TxReceipt
    pub saved : Store p
    pub parts : rs ≡ front ++ back
    pub history : Transacted p from_content v w (genesis p) front saved
    pub same : opened p y ≡ opened p saved

  abbrev pub Saved : List TxReceipt → Option (Option (Store p)) → Type 0
  Saved rs none = Unit
  Saved rs (some none) = Unit
  Saved rs (some (some y)) = LoadsFront rs y

  pub Saved-append :
      (rs qs : List TxReceipt) (checkpoint : Option (Option (Store p)))
      → Saved rs checkpoint
      → Saved (rs ++ qs) checkpoint
  Saved-append rs qs none h = tt
  Saved-append rs qs (some none) h = tt
  Saved-append rs qs (some (some y)) h = record {
    front = h.front;
    back = h.back ++ qs;
    saved = h.saved;
    parts = ap (λ l. l ++ qs) h.parts ∙ append_assoc h.front h.back qs;
    history = h.history;
    same = h.same;
  }

  pub recover_from_checkpoint-Recovers :
      (content : Bytes) (rs : List TxReceipt) (u y : Store p)
      → OnDisk p from_content v w serialize content rs u
      → LoadsFront rs y
      → Recovers (recover_from_checkpoint p w deserialize y content) rs u
  unfolding build
  recover_from_checkpoint-Recovers content rs u y d h =
      let (c, before, after) =
        Transacted-split p from_content v w h.front h.back (genesis p) d.store
          (rw h.parts at d.history) in
      let at_checkpoint : h.saved ≡ c =
        Transacted-unique p from_content v w h.front (genesis p) h.saved c
          (genesis-IsCanonical p from_content v w) h.history before in
      let (es, fs, split, f, g) =
        IsFrames-parts serialize d.entries h.front h.back (rw h.parts at d.frames) in
      let (z, run, same) =
        replayed_behind p from_content v w serialize deserialize h.front h.back c d.store y content
          d.log es fs reads_back before after f g (rw split at d.recovered)
          (h.same ∙ ap (opened p) at_checkpoint) in
      (build p z (some d.log), run, same ∙ d.same, rebuilt content rs u z d same)

  -- Where there is a log, a cold start recovers the same from it, with the checkpoint or without.
  abbrev pub Starts :
      Option (Result DbError (ColdStartResult p w deserialize)) → List TxReceipt → Store p → Type 0
  Starts x rs u =
      (started : ColdStartResult p w deserialize) × (x ≡ some (ok started))
      × (opened p started.database.current ≡ opened p u)
      × IsDurable p from_content v w serialize started.database rs []

  pub cold_start-Starts :
      (creates : Bool) (checkpoint : Option (Option (Store p))) (content : Bytes)
      (rs : List TxReceipt) (u : Store p)
      → OnDisk p from_content v w serialize content rs u
      → Saved rs checkpoint
      → Starts (cold_start p w deserialize creates checkpoint (some content)) rs u
  unfolding cold_start try_wal_only try_checkpoint_plus_wal
  cold_start-Starts creates none content rs u d h =
      let (db, run, same, durable) = recover_from_wal-Recovers content rs u d in
      rw run (record { database = db; level = wal_only }, refl, same, durable)
  cold_start-Starts creates (some none) content rs u d h =
      let (db, run, same, durable) = recover_from_wal-Recovers content rs u d in
      rw run (record { database = db; level = wal_only }, refl, same, durable)
  cold_start-Starts creates (some (some y)) content rs u d h =
      let (db, run, same, durable) = recover_from_checkpoint-Recovers content rs u y d h in
      rw run (record { database = db; level = checkpoint_plus_wal }, refl, same, durable)
