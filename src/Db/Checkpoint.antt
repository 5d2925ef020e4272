-- ===== src/Db/Checkpoint.antt =====
-- Recovery from a checkpoint and the log (ferratomic-core/src/db/recover.rs, INV-FERR-013).
use ferratomic.Prelude.{
  ℕ, ◌≡◌, refl, ap, Bool, true, false, Option, none, some, List, [], ◌∷◌, ◌++◌, ltb, All, All-map,
  arith,
}
use ferratomic.Prelude.Bytes.{Bytes}
use ferratomic.Prelude.Results.{ok}
use ferratomic.Datom.Types.{EntityId, Datom}
use ferratomic.Store.Evolution.{Visit}
use ferratomic.Store.Merge.{Parts, Store}
use ferratomic.Store.Genesis.{genesis}
use ferratomic.Store.Apply.{TxReceipt}
use ferratomic.Store.Written.{opened}
use ferratomic.Store.Recovery.{Transacted, Transacted-IsCanonical}
use ferratomic.Wal.Frame.{WalEntry}
use ferratomic.Wal.State.{Wal, open_wal, recover}
use ferratomic.Db.Wire.{WireDatom}
use ferratomic.Db.State.{Database, build}
use ferratomic.Db.Recover.{replay_entries, recover_from_checkpoint}
use ferratomic.Db.Entries.{ReadsBack, IsFrames, replay_frames}
use ferratomic.Db.History.{genesis-IsCanonical, Transacted-Between}

module _ (p : Parts) (from_content : Bytes → EntityId) (v w : Visit)
    (serialize : List Datom → Option Bytes) (deserialize : Bytes → Option (List WireDatom)) where
  -- The epochs of the frames are those of the receipts.
  kept_or_not :
      (keep : ℕ → Bool) (b : Bool) (es : List WalEntry) (rs : List TxReceipt)
      → IsFrames serialize es rs
      → All (λ (r : TxReceipt). keep r.epoch ≡ b) rs
      → All (λ (e : WalEntry). keep e.epoch ≡ b) es
  kept_or_not keep b [] rs f h = tt
  kept_or_not keep b (e ∷ es) [] f h = absurd f
  kept_or_not keep b (e ∷ es) (r ∷ rs) f h = (rw f.0 h.0, kept_or_not keep b es rs f.2 h.1)

  skip :
      (keep : ℕ → Bool) (es fs : List WalEntry) (s : Store p)
      → All (λ (e : WalEntry). keep e.epoch ≡ false) es
      → replay_entries p w deserialize keep (es ++ fs) s ≡ replay_entries p w deserialize keep fs s
  unfolding replay_entries
  skip keep [] fs s h = refl
  skip keep (e ∷ es) fs s h = rw h.0 (skip keep es fs s h.1)

  pub replayed_behind :
      (rs qs : List TxReceipt) (c u y : Store p) (content : Bytes) (log : Wal)
      (es fs : List WalEntry)
      → ReadsBack serialize deserialize
      → Transacted p from_content v w (genesis p) rs c
      → Transacted p from_content v w c qs u
      → IsFrames serialize es rs
      → IsFrames serialize fs qs
      → recover none (open_wal content) ≡ some (log, ok (es ++ fs))
      → opened p y ≡ opened p c
      → (z : Store p) × (recover_from_checkpoint p w deserialize y content
          ≡ some (ok (build p z (some log))))
        × (opened p z ≡ opened p u)
  unfolding recover_from_checkpoint build
  replayed_behind rs qs c u y content log es fs reads_back before after f g e same =
      let start = genesis-IsCanonical p from_content v w in
      let middle = Transacted-IsCanonical p from_content v w rs (genesis p) c start before in
      let epoch : y.epoch ≡ c.epoch = ap (λ x. x.epoch) same in
      let keep : ℕ → Bool = ltb y.epoch in
      let old : All (λ (r : TxReceipt). keep r.epoch ≡ false) rs =
        All-map _ _ rs (λ r b. ground arith)
          (Transacted-Between p from_content v w rs (genesis p) c start before).1 in
      let new : All (λ (r : TxReceipt). keep r.epoch ≡ true) qs =
        All-map _ _ qs (λ r b. ground arith)
          (Transacted-Between p from_content v w qs c u middle after).1 in
      let (z, run, final) =
        replay_frames p from_content v w serialize deserialize reads_back keep fs qs c u y
          (kept_or_not keep true fs qs g new) g middle same after in
      (z, rw (e, skip keep es fs y (kept_or_not keep false es rs f old), run) refl, final)

  -- A checkpoint of the store after the first transactions of the log, and the log, give the
  -- store that all transactions gave, up to its representation: those that the checkpoint has
  -- are not replayed.
  pub recover_from_checkpoint-Transacted :
      (rs qs : List TxReceipt) (c u y : Store p) (content : Bytes) (log : Wal)
      (es fs : List WalEntry)
      → ReadsBack serialize deserialize
      → Transacted p from_content v w (genesis p) rs c
      → Transacted p from_content v w c qs u
      → IsFrames serialize es rs
      → IsFrames serialize fs qs
      → recover none (open_wal content) ≡ some (log, ok (es ++ fs))
      → opened p y ≡ opened p c
      → (db : Database p) × (recover_from_checkpoint p w deserialize y content ≡ some (ok db))
        × (opened p db.current ≡ opened p u)
  unfolding build
  recover_from_checkpoint-Transacted rs qs c u y content log es fs reads_back before after f g e
        same =
      let (z, run, final) =
        replayed_behind rs qs c u y content log es fs reads_back before after f g e same in
      (build p z (some log), run, final)
