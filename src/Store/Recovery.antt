-- ===== src/Store/Recovery.antt =====
-- Replaying what transactions wrote gives the store they gave (apply.rs, INV-FERR-014).
use ferratomic.Prelude.{ℕ, ◌+◌, ◌≡◌, refl, sym, ap, ◌∙◌, subst, inl, inr, List, [], ◌∷◌}
use ferratomic.Prelude.Bytes.{Bytes}
use ferratomic.Prelude.Results.{Result, ok}
use ferratomic.Datom.Types.{EntityId, Datom}
use ferratomic.Positional.MergeLaws.{IsCanonical}
use ferratomic.Prolly.Boundary.{is_empty}
use ferratomic.Store.Evolution.{ApplyError, Visit, evolve_schema}
use ferratomic.Store.Merge.{Parts, Store, from_sorted_canonical, repr_datoms, datoms}
use ferratomic.Store.Apply.{
  TransactContext, TxReceipt, stamped, demote, insert_all, evolve, replay_entry, replay_loop,
  batch_replay, stage, transact,
}
use ferratomic.Store.Batch.{result_cases, stage_ok}
use ferratomic.Store.Written.{
  opened, written, written-IsCanonical, add_datoms-opened, promote-eq-opened, opened-insert_all,
  demote-opened-written, write-eq-written,
}
use ferratomic.Tx.Commit.{Committed}

module _ (p : Parts) (from_content : Bytes → EntityId) (v w : Visit) where
  -- Transactions that succeed one after the other, with their receipts. `v` is the order of the
  -- groups in which their schemas evolve, `w` that of a replay; each gives the same schema.
  pub data Transacted : Store p → List TxReceipt → Store p → Type 0 where
    done : {s : Store p} → Transacted s [] s
    next :
        {s t u : Store p} {rs : List TxReceipt} (tx : Committed) (ctx : TransactContext)
        (r : TxReceipt)
        → transact p v from_content tx ctx s ≡ (t, ok r)
        → evolve_schema w s.schema r.datoms ≡ evolve_schema v s.schema r.datoms
        → Transacted t rs u
        → Transacted s (r ∷ rs) u

  -- The store after the schema has evolved, in a transaction or a replay
  abbrev IsEvolved : TxReceipt → Store p → Store p → Type 0
  IsEvolved r s x =
      (x.repr ≡ s.repr)
      × (r.epoch ≡ s.epoch + 1)
      × (evolve p v r.datoms (record s { epoch = r.epoch }) ≡ (x, ok tt))

  pub transact_ok :
      (tx : Committed) (ctx : TransactContext) (s t : Store p) (r : TxReceipt)
      → IsCanonical p.datom_order (datoms p s)
      → transact p v from_content tx ctx s ≡ (t, ok r)
      → (x : Store p) × (t ≡ written p r.datoms x) × IsEvolved r s x
  unfolding transact
  transact_ok tx ctx s t r h e =
      let all : List Datom = stamped from_content tx.node tx.datoms ctx in
      elim (result_cases p v (stage p v tx.datoms all s)) [
        | inl (x, f, g) ↦ let bad = ap (λ y. y.1) (rw g at e) in cc
        | inr (x, r', g) ↦
            let (same, kept, epoch, evolved) = stage_ok p v tx.datoms all s x r' g in
            let stored = ap (λ y. y.0) (rw g at e) in
            let receipts = ap (λ y. y.1) (rw g at e) in
            let rr : r' ≡ r = cc in
            let canonical : IsCanonical p.datom_order (datoms p x) =
              subst (λ y. IsCanonical p.datom_order (repr_datoms p y)) (sym kept) h in
            (
              x,
              sym stored
                  ∙ write-eq-written p r'.datoms x canonical
                  ∙ ap (λ (y : TxReceipt). written p y.datoms x) rr,
              (kept, rw (sym rr) epoch, rw (sym rr) (rw same evolved)),
            )
      ]

  -- The log of the transactions: a frame for each, with its epoch and its datoms
  unfoldable pub log_of : List TxReceipt → List (ℕ × List Datom)
  log_of [] = []
  log_of (r ∷ rs) = (r.epoch, r.datoms) ∷ log_of rs

  canonical_of_evolved :
      (r : TxReceipt) (s x : Store p)
      → IsCanonical p.datom_order (datoms p s)
      → IsEvolved r s x
      → IsCanonical p.datom_order (datoms p x)
  canonical_of_evolved r s x h evolved =
      subst (λ y. IsCanonical p.datom_order (repr_datoms p y)) (sym evolved.0) h

  evolve_as_replayed :
      (r : TxReceipt) (s x : Store p)
      → evolve_schema w s.schema r.datoms ≡ evolve_schema v s.schema r.datoms
      → IsEvolved r s x
      → evolve p w r.datoms (record s { epoch = r.epoch }) ≡ (x, ok tt)
  evolve_as_replayed r s x agree evolved =
      ap {B = Store p × Result ApplyError (Unit {0})}
        (λ y. (record s { epoch = r.epoch; schema = y.0 }, y.1)) agree
      ∙ evolved.2

  -- Evolution commutes with the writing of datoms, on which it does not depend.
  evolve-opened :
      (r : TxReceipt) (s x : Store p)
      → evolve p w r.datoms (record s { epoch = r.epoch }) ≡ (x, ok tt)
      → evolve p w r.datoms (record (opened p (written p r.datoms s)) { epoch = r.epoch })
        ≡ (opened p (written p r.datoms x), ok tt)
  unfolding from_sorted_canonical
  evolve-opened r s x e =
      ap {B = Store p × Result ApplyError (Unit {0})}
        (λ y. (opened p (written p r.datoms y.0), y.1)) e

  -- What replaying one frame does to a store of a set of datoms
  replay_one :
      (tx : Committed) (ctx : TransactContext) (s t : Store p) (r : TxReceipt)
      → IsCanonical p.datom_order (datoms p s)
      → transact p v from_content tx ctx s ≡ (t, ok r)
      → evolve_schema w s.schema r.datoms ≡ evolve_schema v s.schema r.datoms
      → (x : Store p) × (t ≡ written p r.datoms x)
        × IsCanonical p.datom_order (datoms p x)
        × (evolve p w r.datoms (record (opened p (written p r.datoms s)) { epoch = r.epoch })
            ≡ (opened p t, ok tt))
  replay_one tx ctx s t r h e agree =
      let (x, stored, evolved) = transact_ok tx ctx s t r h e in
      (
        x,
        stored,
        canonical_of_evolved r s x h evolved,
        evolve-opened r s x (evolve_as_replayed r s x agree evolved)
            ∙ ap {B = Store p × Result ApplyError (Unit {0})} (λ y. (opened p y, ok tt))
                (sym stored),
      )

  transact-IsCanonical :
      (s t x : Store p) (r : TxReceipt)
      → t ≡ written p r.datoms x
      → IsCanonical p.datom_order (datoms p x)
      → IsCanonical p.datom_order (datoms p t)
  transact-IsCanonical s t x r e h =
      subst (λ y. IsCanonical p.datom_order (datoms p y)) (sym e)
        (written-IsCanonical p r.datoms x h)

  replay_loop-log :
      (rs : List TxReceipt) (s u : Store p)
      → IsCanonical p.datom_order (datoms p s)
      → Transacted s rs u
      → replay_loop p w (log_of rs) (opened p s) ≡ (opened p u, ok tt)
  unfolding replay_loop log_of
  replay_loop-log rs s u h done = refl
  replay_loop-log rs s u h (next {t = t} {rs = qs} tx ctx r e agree more) =
      let (x, stored, canonical, one) = replay_one tx ctx s t r h e agree in
      rw (add_datoms-opened p r.datoms s h, one)
        (replay_loop-log qs t u (transact-IsCanonical s t x r stored canonical) more)

  pub Transacted-IsCanonical :
      (rs : List TxReceipt) (s u : Store p)
      → IsCanonical p.datom_order (datoms p s)
      → Transacted s rs u
      → IsCanonical p.datom_order (datoms p u)
  Transacted-IsCanonical rs s u h done = h
  Transacted-IsCanonical rs s u h (next {t = t} {rs = qs} tx ctx r e agree more) =
      let (x, stored, canonical, one) = replay_one tx ctx s t r h e agree in
      Transacted-IsCanonical qs t u (transact-IsCanonical s t x r stored canonical) more

  -- A store that its set of datoms gives back, as it is after a transaction
  abbrev IsDemoted : Store p → Type 0
  IsDemoted s = demote p (opened p s) ≡ s

  Transacted-IsDemoted :
      (rs : List TxReceipt) (s u : Store p)
      → IsCanonical p.datom_order (datoms p s)
      → IsDemoted s
      → Transacted s rs u
      → IsDemoted u
  Transacted-IsDemoted rs s u h k done = k
  Transacted-IsDemoted rs s u h k (next {t = t} {rs = qs} tx ctx r e agree more) =
      let (x, stored, canonical, one) = replay_one tx ctx s t r h e agree in
      Transacted-IsDemoted qs t u (transact-IsCanonical s t x r stored canonical)
        (rw stored (demote-opened-written p r.datoms x canonical)) more

  -- Replaying the log of transactions on the store they began with gives the store they gave.
  pub batch_replay-log_of :
      (rs : List TxReceipt) (s u : Store p)
      → IsCanonical p.datom_order (datoms p s)
      → Transacted s rs u
      → batch_replay p w (log_of rs) s ≡ (u, ok tt)
  unfolding batch_replay log_of is_empty
  batch_replay-log_of rs s u h done = refl
  batch_replay-log_of rs s u h (next {t = t} {rs = qs} tx ctx r e agree more) =
      let (x, stored, canonical, one) = replay_one tx ctx s t r h e agree in
      let whole : replay_loop p w ((r.epoch, r.datoms) ∷ log_of qs) (opened p s)
          ≡ (opened p u, ok tt) =
        replay_loop-log (r ∷ qs) s u h (next tx ctx r e agree more) in
      rw (promote-eq-opened p s h, whole)
        (ap {B = Store p × Result ApplyError (Unit {0})} (λ y. (y, ok tt))
          (Transacted-IsDemoted qs t u (transact-IsCanonical s t x r stored canonical)
            (rw stored (demote-opened-written p r.datoms x canonical)) more))

  -- The receipts and the store before them determine the store that transactions give.
  pub Transacted-unique :
      (rs : List TxReceipt) (s t u : Store p)
      → IsCanonical p.datom_order (datoms p s)
      → Transacted s rs t
      → Transacted s rs u
      → t ≡ u
  Transacted-unique rs s t u h x y =
      ap (λ q. q.0) (sym (batch_replay-log_of rs s t h x) ∙ batch_replay-log_of rs s u h y)

  opened-insert_all_same :
      (ds : List Datom) (s y : Store p)
      → IsCanonical p.datom_order (datoms p s)
      → opened p y ≡ opened p s
      → opened p (insert_all p ds y) ≡ opened p (written p ds s)
  opened-insert_all_same ds s y h e =
      let same : datoms p y ≡ datoms p s = ap (datoms p) e in
      let canonical : IsCanonical p.datom_order (datoms p y) =
        subst (IsCanonical p.datom_order) (sym same) h in
      opened-insert_all p ds y canonical ∙ ap (λ t. opened p (written p ds t)) e

  -- Replaying a frame gives the store the transaction gave, up to its representation.
  pub replay_entry-transact :
      (tx : Committed) (ctx : TransactContext) (s t y : Store p) (r : TxReceipt)
      → IsCanonical p.datom_order (datoms p s)
      → transact p v from_content tx ctx s ≡ (t, ok r)
      → evolve_schema w s.schema r.datoms ≡ evolve_schema v s.schema r.datoms
      → opened p y ≡ opened p s
      → (z : Store p) × (replay_entry p w r.epoch r.datoms y ≡ (z, ok tt))
        × (opened p z ≡ opened p t)
        × IsCanonical p.datom_order (datoms p t)
  unfolding replay_entry
  replay_entry-transact tx ctx s t y r h e agree same =
      let (x, stored, canonical, one) = replay_one tx ctx s t r h e agree in
      let as_set : evolve p w r.datoms
            (record (opened p (insert_all p r.datoms y)) { epoch = r.epoch })
          ≡ (opened p t, ok tt) =
        ap (λ q. evolve p w r.datoms (record q { epoch = r.epoch }))
          (opened-insert_all_same r.datoms s y h same)
        ∙ one in
      let z = replay_entry p w r.epoch r.datoms y in
      (
        z.0,
        (λ i. (z.0, (ap (λ q. q.1) as_set) i)),
        ap (λ q. q.0) as_set,
        transact-IsCanonical s t x r stored canonical,
      )
