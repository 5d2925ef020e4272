-- ===== src/Db/Answers.antt =====
-- Each call of `transact` keeps the log ahead of the store (ferratomic-core/src/db, INV-FERR-008).
use ferratomic.Prelude.{◌≡◌, refl, sym, inl, inr, Option, none, some, List, [], ◌∷◌}
use ferratomic.Prelude.Bytes.{Bytes}
use ferratomic.Prelude.Results.{ok, step_cases}
use ferratomic.Clock.TxId.{TxId}
use ferratomic.Clock.Hybrid.{tick}
use ferratomic.Datom.Types.{EntityId, Datom}
use ferratomic.Datom.Hash.{Hasher}
use ferratomic.Store.Evolution.{Visit, evolve_schema}
use ferratomic.Store.Merge.{Parts, Store}
use ferratomic.Store.Apply.{TransactContext, TxReceipt}
use ferratomic.Store.Apply
use ferratomic.Tx.Commit.{Committed}
use ferratomic.Wal.State.{all}
use ferratomic.Db.State.{Calls, Database, conclude, write_wal, context, ticked, transact}
use ferratomic.Db.Signing.{Keys, sign_transaction, components, transact_signed}
use ferratomic.Store.Recovery.{done, next}
use ferratomic.Db.History.{Transacted-same, receipt_epoch, next_epoch}
use ferratomic.Db.Logged.{write_blocked, write_wal-Wrote}
use ferratomic.Db.Outcome.{unblocked, conclude-Answered}
use ferratomic.Db.Durable.{IsDurable, store-IsCanonical, IsSteady, Answered, moved}

module _ (p : Parts) (from_content : Bytes → EntityId) (v w : Visit)
    (serialize : List Datom → Option Bytes) where
  published :
      (calls : Calls) (now : TxId) (tx : Committed) (ctx : TransactContext) (db : Database p)
      (t : Store p) (r : TxReceipt) (rs doubt : List TxReceipt)
      → IsDurable p from_content v w serialize db rs doubt
      → calls.write ≡ all
      → Apply.transact p v from_content tx ctx db.current ≡ (t, ok r)
      → evolve_schema w db.current.schema r.datoms ≡ evolve_schema v db.current.schema r.datoms
      → Answered p from_content v w serialize tx db rs doubt (
          conclude p v from_content serialize now t r db
            (write_wal p v from_content serialize calls r.epoch r.datoms db.wal))
  published calls now tx ctx db t r rs [] h whole e agree =
      let canonical = store-IsCanonical p from_content v w h in
      let (u, ran, same) =
        Transacted-same p from_content v w (r ∷ []) db.current h.store t canonical h.current
          (next tx ctx r e agree done) in
      let is = unblocked p from_content v w serialize db rs h (r ∷ []) u ran in
      let (low, high) = receipt_epoch p from_content v w h.store u r canonical ran in
      rw h.attached (
        conclude-Answered p from_content v w serialize db rs h r u ran tx now t
          (write_wal p v from_content serialize calls r.epoch r.datoms (some h.log))
          (ctx, t, r, e, refl) (sym same)
          (write_wal-Wrote p from_content v w serialize calls h.log h.acknowledged r whole is low
            high))
  published calls now tx ctx db t r rs (d ∷ doubt) h whole e agree =
      let canonical = store-IsCanonical p from_content v w h in
      let (u, ran, same) =
        Transacted-same p from_content v w (r ∷ []) db.current h.store t canonical h.current
          (next tx ctx r e agree done) in
      let epochs =
        next_epoch p from_content v w h.store u h.after_doubt r d [] doubt canonical ran
          h.in_doubt in
      let (low, high) = receipt_epoch p from_content v w h.store u r canonical ran in
      let (x, blocked) =
        write_blocked p from_content v w serialize calls h.log h.acknowledged h.synced h.later d
          doubt r.epoch r.datoms whole h.is_log h.doubt_frames low epochs in
      rw (h.attached, blocked)
        (
          refl,
          d ∷ doubt,
          inr refl,
          moved p from_content v w serialize db (record db { wal = some h.log }) rs (d ∷ doubt) h
              (sym h.attached) refl,
        )

  pub ticked-Answered :
      (sign : TxId → Option (Bytes × Bytes)) (calls : Calls) (tx : Committed) (db : Database p)
      (rs doubt : List TxReceipt)
      → IsDurable p from_content v w serialize db rs doubt
      → calls.write ≡ all
      → IsSteady p from_content v w tx db.current
      → Answered p from_content v w serialize tx db rs doubt
          (ticked p v from_content serialize sign calls tx db (tick calls.reads db.clock))
  ticked-Answered sign calls tx db rs doubt h whole steady =
      elim (step_cases (tick calls.reads db.clock)) [
        | inl (c, x, g) ↦ rw g (
          refl,
          doubt,
          inr refl,
          moved p from_content v w serialize db (record db { clock = c }) rs doubt h refl refl,
        )
        | inr (c, now, g) ↦
            let ctx : TransactContext =
              context p v from_content serialize now db.frontier (sign now) in
            let db' : Database p = record db { clock = c } in
            let h' = moved p from_content v w serialize db db' rs doubt h refl refl in
            elim (step_cases (Apply.transact p v from_content tx ctx db.current)) [
              | inl (t, x, k) ↦ rw (g, k) (refl, doubt, inr refl, h')
              | inr (t, r, k) ↦
                  rw (g, k)
                    (published calls now tx ctx db' t r rs doubt h' whole k (steady ctx t r k))
            ]
      ]

  -- In a database whose log holds the transactions that gave its store, and behind them those in
  -- doubt, which would follow, with whole writes, and if the order in which schemas evolve makes no
  -- difference to the transaction: if it is acknowledged, none was in doubt, and the receipt is one
  -- that the store gives for it in some context, and is on the disk behind those before it; if it
  -- fails, the store stays as it was, and so do those in doubt, or, if there were none, this one is
  -- now, or again none.
  pub transact-Answered :
      (calls : Calls) (tx : Committed) (db : Database p) (rs doubt : List TxReceipt)
      → IsDurable p from_content v w serialize db rs doubt
      → calls.write ≡ all
      → IsSteady p from_content v w tx db.current
      → Answered p from_content v w serialize tx db rs doubt
          (transact p v from_content serialize calls tx db)
  unfolding transact
  transact-Answered calls tx db rs doubt h whole steady =
      ticked-Answered (λ now. none) calls tx db rs doubt h whole steady

  pub transact_signed-Answered {ℓ} :
      {H : Type ℓ} (blake : Hasher H) (keys : Keys) (key : keys.SigningKey) (calls : Calls)
      (tx : Committed) (db : Database p) (rs doubt : List TxReceipt)
      → IsDurable p from_content v w serialize db rs doubt
      → calls.write ≡ all
      → IsSteady p from_content v w tx db.current
      → Answered p from_content v w serialize tx db rs doubt
          (transact_signed p v from_content serialize blake keys calls tx key db)
  unfolding transact_signed
  transact_signed-Answered blake keys key calls tx db rs doubt h whole steady =
      ticked-Answered
        (λ now. some (
          sign_transaction blake p.datom_order keys
            (components p v from_content serialize blake keys tx db now) key))
        calls tx db rs doubt h whole steady
