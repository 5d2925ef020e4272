-- ===== src/Db/Batches.antt =====
-- A batch of transactions keeps the log ahead of the store (batch_transact of
-- ferratomic-core/src/db/transact.rs, INV-FERR-008, INV-FERR-072).
use ferratomic.Prelude.{
  ℕ, suc, ◌≡◌, refl, sym, ap, ◌∙◌, subst, inl, inr, Option, some, List, [], ◌∷◌, append-nil, length,
  map, length-map, arith,
}
use ferratomic.Prelude.Bytes.{Bytes}
use ferratomic.Prelude.Results.{ok, err, step_cases}
use ferratomic.Clock.TxId.{TxId}
use ferratomic.Clock.Hybrid.{HybridClock, tick}
use ferratomic.Datom.Types.{EntityId, Datom}
use ferratomic.Positional.MergeLaws.{IsCanonical}
use ferratomic.Prolly.Boundary.{is_empty}
use ferratomic.Store.Evolution.{Visit}
use ferratomic.Store.Merge.{Parts, Store, datoms}
use ferratomic.Store.Apply.{TxReceipt, batch_splice_transact}
use ferratomic.Store.Batch.{transact_each, batch_in_one_order}
use ferratomic.Store.Recovery.{Transacted}
use ferratomic.Tx.Commit.{Committed}
use ferratomic.Wal.State.{all}
use ferratomic.Db.State.{
  Calls, Database, Ticked, push_batch, tick_each, write_each, conclude_batch, log_and_publish_batch,
  batch_transact,
}
use ferratomic.Db.History.{
  SteadyEach, transact_each-Ran, Transacted-same, next_epoch, receipt_epoch, Transacted-split,
}
use ferratomic.Db.Logged.{write_blocked, write_each-Wrote}
use ferratomic.Db.Outcome.{unblocked, conclude_batch-Answered}
use ferratomic.Db.Durable.{
  IsDurable, store-IsCanonical, IsSteadyBatch, AreReceipts, AnsweredBatch, moved,
}

module _ (p : Parts) (from_content : Bytes → EntityId) (v w : Visit)
    (serialize : List Datom → Option Bytes) where
  -- The ticks give each transaction its identifier, and keep its datoms.
  abbrev Paired : List Committed → Ticked p v from_content serialize → Type 0
  Paired txs (c, err e) = Unit
  Paired txs (c, ok batches) = map (λ b. b.0) batches ≡ map (λ (t : Committed). t.datoms) txs

  push-Paired :
      (one : Committed) (txs : List Committed) (now : TxId)
      (more : Ticked p v from_content serialize)
      → Paired txs more
      → Paired (one ∷ txs) (push_batch p v from_content serialize one.datoms now more)
  push-Paired one txs now (c, err e) h = tt
  push-Paired one txs now (c, ok batches) h = ap (λ l. one.datoms ∷ l) h

  tick_each-Paired :
      (calls : ℕ → Calls) (txs : List Committed) (c : HybridClock)
      → Paired txs (tick_each p v from_content serialize calls txs c)
  unfolding tick_each
  tick_each-Paired calls [] c = refl
  tick_each-Paired calls (one ∷ txs) c = elim (step_cases (tick (calls 0).reads c)) [
    | inl (c', x, e) ↦ rw e tt
    | inr (c', now, e) ↦ rw e (
        push-Paired one txs now (tick_each p v from_content serialize (λ i. calls (suc i)) txs c')
          (tick_each-Paired (λ i. calls (suc i)) txs c'))
  ]

  -- A batch that the store accepts has the receipts of transactions one after the other.
  batch-Ran :
      (batches : List (List Datom × TxId)) (s t : Store p) (qs : List TxReceipt)
      → IsCanonical p.datom_order (datoms p s)
      → SteadyEach p from_content v w batches s
      → batch_splice_transact p v from_content batches s ≡ (t, ok qs)
      → Transacted p from_content v w s qs t × (length qs ≡ length batches)
  batch-Ran batches s t qs h steady e =
      let each : transact_each p v from_content batches s ≡ (t, ok qs) =
        rw e at (batch_in_one_order p v from_content batches s h) in
      rw each at (transact_each-Ran p from_content v w batches s steady)

  written :
      (txs : List Committed) (calls : ℕ → Calls) (db : Database p) (t : Store p) (q : TxReceipt)
      (qs rs doubt : List TxReceipt)
      → IsDurable p from_content v w serialize db rs doubt
      → ((i : ℕ) → (calls i).write ≡ all)
      → AreReceipts p from_content v w txs db.current (q ∷ qs)
      → Transacted p from_content v w db.current (q ∷ qs) t
      → AnsweredBatch p from_content v w serialize txs db rs doubt (
          conclude_batch p v from_content serialize t
            (q ∷ qs)
            db
            (write_each p v from_content serialize calls (q ∷ qs) db.wal))
  unfolding write_each
  written txs calls db t q qs rs [] h whole made run =
      let canonical = store-IsCanonical p from_content v w h in
      let (u, ran, same) =
        Transacted-same p from_content v w (q ∷ qs) db.current h.store t canonical h.current run in
      let is = unblocked p from_content v w serialize db rs h (q ∷ qs) u ran in
      rw h.attached (
        conclude_batch-Answered p from_content v w serialize db rs h (q ∷ qs) u ran txs t
          (write_each p v from_content serialize calls (q ∷ qs) (some h.log)) made (sym same)
          (write_each-Wrote p from_content v w serialize (q ∷ qs) h.store u calls h.log
            h.acknowledged canonical whole is ran))
  written txs calls db t q qs rs (d ∷ doubt) h whole made run =
      let canonical = store-IsCanonical p from_content v w h in
      let (u, ran, same) =
        Transacted-same p from_content v w (q ∷ qs) db.current h.store t canonical h.current run in
      let epochs =
        next_epoch p from_content v w h.store u h.after_doubt q d qs doubt canonical ran
          h.in_doubt in
      let (m, one, rest) = Transacted-split p from_content v w (q ∷ []) qs h.store u ran in
      let (low, high) = receipt_epoch p from_content v w h.store m q canonical one in
      let (x, blocked) =
        write_blocked p from_content v w serialize (calls 0) h.log h.acknowledged h.synced h.later d
          doubt q.epoch q.datoms (whole 0) h.is_log h.doubt_frames low epochs in
      rw (h.attached, blocked)
        (
          refl,
          d ∷ doubt,
          inr refl,
          moved p from_content v w serialize db (record db { wal = some h.log }) rs (d ∷ doubt) h
              (sym h.attached) refl,
        )

  applied :
      (calls : ℕ → Calls) (db : Database p) (batches : List (List Datom × TxId))
      (rs doubt : List TxReceipt) (one : Committed) (txs : List Committed)
      → map (λ b. b.0) batches ≡ map (λ (c : Committed). c.datoms) (one ∷ txs)
      → IsDurable p from_content v w serialize db rs doubt
      → ((i : ℕ) → (calls i).write ≡ all)
      → SteadyEach p from_content v w batches db.current
      → AnsweredBatch p from_content v w serialize (one ∷ txs) db rs doubt (
          log_and_publish_batch p v from_content serialize calls db
            (batch_splice_transact p v from_content batches db.current))
  applied calls db batches rs doubt one txs paired h whole steady =
      let size : length batches ≡ suc (length txs) =
        sym (length-map (λ b. b.0) batches)
        ∙ ap length paired
        ∙ length-map (λ (c : Committed). c.datoms) (one ∷ txs) in
      let canonical : IsCanonical p.datom_order (datoms p db.current) =
        subst (IsCanonical p.datom_order) (sym (ap (datoms p) h.current))
          (store-IsCanonical p from_content v w h) in
      elim (step_cases (batch_splice_transact p v from_content batches db.current)) [
        | inl (t, x, e) ↦ rw e (refl, doubt, inr refl, h)
        | inr (t, [], e) ↦
            let (run, count) = batch-Ran batches db.current t [] canonical steady e in
            absurd (omega (arith, size, count))
        | inr (t, q ∷ qs, e) ↦
            let (run, count) = batch-Ran batches db.current t (q ∷ qs) canonical steady e in
            rw e (
              written (one ∷ txs) calls db t q qs rs doubt h whole
                (batches, t, paired, e, count ∙ size) run)
      ]

  -- In a database whose log holds the transactions that gave its store, and behind them those in
  -- doubt, which would follow, with whole writes, and if the order in which schemas evolve makes no
  -- difference to any transaction of the batch: if the batch is acknowledged, none was in doubt, or
  -- the batch is empty, and the receipts are ones that the store gives for it with some identifiers,
  -- one for each transaction, and are on the disk behind those before; if it fails, the store stays
  -- as it was, and so do those in doubt, or, if there were none, the first ones of the batch are now,
  -- or again none.
  pub batch_transact-Answered :
      (calls : ℕ → Calls) (txs : List Committed) (db : Database p) (rs doubt : List TxReceipt)
      → IsDurable p from_content v w serialize db rs doubt
      → ((i : ℕ) → (calls i).write ≡ all)
      → IsSteadyBatch p from_content v w txs db.current
      → AnsweredBatch p from_content v w serialize txs db rs doubt
          (batch_transact p v from_content serialize calls txs db)
  unfolding batch_transact is_empty batch_splice_transact
  batch_transact-Answered calls [] db rs doubt h whole steady =
      (inr refl, ([], db.current, refl, refl, refl), rw append-nil h)
  batch_transact-Answered calls (one ∷ txs) db rs doubt h whole steady =
      let ticks = tick_each-Paired calls (one ∷ txs) db.clock in
      elim (step_cases (tick_each p v from_content serialize calls (one ∷ txs) db.clock)) [
        | inl (c, x, e) ↦ rw e (
          refl,
          doubt,
          inr refl,
          moved p from_content v w serialize db (record db { clock = c }) rs doubt h refl refl,
        )
        | inr (c, batches, e) ↦
            let paired : map (λ b. b.0) batches ≡ map (λ (t : Committed). t.datoms) (one ∷ txs) =
              rw e at ticks in
            let db' : Database p = record db { clock = c } in
            rw e (
              applied calls db' batches rs doubt one txs paired
                (moved p from_content v w serialize db db' rs doubt h refl refl) whole
                (steady batches paired))
      ]
