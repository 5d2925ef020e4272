-- ===== src/Store/BatchOrders.antt =====
-- A batch and its transactions one by one visit the groups of schema evolution in orders of their
-- own (apply.rs and schema_evolution.rs, INV-FERR-072).
use ferratomic.Prelude.{◌-◌, ◌^◌, ◌≡◌, refl, ap, inl, inr, List, [], ◌∷◌, leb, Bool-cases}
use ferratomic.Prelude.Bytes.{Bytes}
use ferratomic.Prelude.Results.{ok}
use ferratomic.Clock.TxId.{TxId}
use ferratomic.Datom.Types.{EntityId, Datom}
use ferratomic.Positional.MergeLaws.{IsCanonical}
use ferratomic.Prolly.Boundary.{is_empty}
use ferratomic.Tx.Commit.{Committed}
use ferratomic.Store.Evolution.{Visit, evolve_schema}
use ferratomic.Store.Merge.{Parts, Store, datoms}
use ferratomic.Store.Apply.{
  TxReceipt, TransactContext, stamped, batch_context, write, and_then, stage, transact,
  push_receipt, batch_splice_transact,
}
use ferratomic.Store.Batch.{result_cases, transact_each, SameOutcome, batch_in_one_order}

module _ (p : Parts) (v w : Visit) where
  stage-visits :
      (ds all : List Datom) (s : Store p)
      → evolve_schema w s.schema all ≡ evolve_schema v s.schema all
      → stage p w ds all s ≡ stage p v ds all s
  unfolding stage
  stage-visits ds all s h = elim (Bool-cases (is_empty ds)) [
    | inl e ↦ rw e refl
    | inr e ↦ rw e (elim (Bool-cases (leb (2 ^ 64 - 1) s.epoch)) [
      | inl f ↦ rw f refl
      | inr f ↦ rw (f, h) refl
    ])
  ]

  module _ (from_content : Bytes → EntityId) where
    transact-visits :
        (tx : Committed) (ctx : TransactContext) (s : Store p)
        → (evolve_schema w s.schema (stamped from_content tx.node tx.datoms ctx)
            ≡ evolve_schema v s.schema (stamped from_content tx.node tx.datoms ctx))
        → transact p w from_content tx ctx s ≡ transact p v from_content tx ctx s
    unfolding transact
    transact-visits tx ctx s h =
        ap (and_then p v (λ (receipt : TxReceipt) t. (write p receipt.datoms t, ok receipt)))
          (stage-visits tx.datoms (stamped from_content tx.node tx.datoms ctx) s h)

    -- Both orders evolve the schema alike, or fail alike, at each transaction.
    abbrev pub SameEvolution : List (List Datom × TxId) → Store p → Type 0
    SameEvolution [] s = Unit
    SameEvolution ((ds, tx) ∷ batches) s =
        (evolve_schema w s.schema (stamped from_content tx.node ds (batch_context from_content tx))
          ≡ evolve_schema v s.schema
              (stamped from_content tx.node ds (batch_context from_content tx)))
        × ((t : Store p) (r : TxReceipt)
            → transact p v from_content (record { node = tx.node; datoms = ds })
                (batch_context from_content tx) s
              ≡ (t, ok r)
            → SameEvolution batches t)

    transact_each-visits :
        (batches : List (List Datom × TxId)) (s : Store p)
        → SameEvolution batches s
        → transact_each p w from_content batches s ≡ transact_each p v from_content batches s
    unfolding transact_each
    transact_each-visits [] s h = refl
    transact_each-visits ((ds, tx) ∷ batches) s (same, rest) =
        let one : Committed = record { node = tx.node; datoms = ds } in
        let first = transact-visits one (batch_context from_content tx) s same in
        elim (result_cases p v (transact p v from_content one (batch_context from_content tx) s)) [
          | inl (t, e, x) ↦ rw (first, x) refl
          | inr (t, r, x) ↦
              rw (first, x)
                (ap (push_receipt p v from_content r) (transact_each-visits batches t (rest t r x)))
        ]

    -- On a store with sorted datoms without duplicates, in either representation, a batch ends as
    -- its transactions do when they are applied one after the other: with the same store and the
    -- same receipts, or with the same error. The batch visits the groups of schema evolution in one
    -- order and the single transactions in another, and the two orders make no difference to what
    -- schema evolution gives for any of the transactions.
    pub batch_splice_transact-SameOutcome :
        (batches : List (List Datom × TxId)) (s : Store p)
        → IsCanonical p.datom_order (datoms p s)
        → SameEvolution batches s
        → SameOutcome p v from_content
            (batch_splice_transact p v from_content batches s)
            (transact_each p w from_content batches s)
    batch_splice_transact-SameOutcome batches s h same =
        rw (transact_each-visits batches s same) (batch_in_one_order p v from_content batches s h)
