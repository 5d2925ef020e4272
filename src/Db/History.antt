-- ===== src/Db/History.antt =====
-- Transactions one after the other, cut, joined and carried to another representation of the store.
use ferratomic.Prelude.{
  ℕ, suc, ◌+◌, ◌^◌, ◌<◌, ◌≤◌, ◌≡◌, refl, sym, ap, ◌∙◌, List, [], ◌∷◌, ◌++◌, inl, inr, length, All,
  All-map, arith,
}
use ferratomic.Prelude.Bytes.{Bytes}
use ferratomic.Prelude.Results.{Result, ok, err}
use ferratomic.Clock.TxId.{TxId}
use ferratomic.Datom.Types.{EntityId, Datom}
use ferratomic.Positional.MergeLaws.{IsCanonical}
use ferratomic.Store.Evolution.{ApplyError, Visit, evolve_schema}
use ferratomic.Store.Merge.{
  Parts, Store, from_datoms, from_sorted_canonical, sort_unstable, dedup, datoms,
}
use ferratomic.Store.Genesis.{genesis}
use ferratomic.Store.Apply.{TransactContext, TxReceipt, batch_context, push_receipt}
use ferratomic.Store.Apply
use ferratomic.Store.Batch.{result_cases, transact_each}
use ferratomic.Store.Written.{opened}
use ferratomic.Store.Recovery.{Transacted, done, next, transact_ok, Transacted-IsCanonical}
use ferratomic.Store.Reopened.{transact_same, transact_epoch}
use ferratomic.Tx.Commit.{Committed}

module _ (p : Parts) (from_content : Bytes → EntityId) (v w : Visit) where
  pub genesis-IsCanonical : IsCanonical p.datom_order (datoms p (genesis p))
  unfolding genesis from_datoms from_sorted_canonical sort_unstable dedup
  genesis-IsCanonical = tt

  pub Transacted-append :
      (rs qs : List TxReceipt) (s t u : Store p)
      → Transacted p from_content v w s rs t
      → Transacted p from_content v w t qs u
      → Transacted p from_content v w s (rs ++ qs) u
  Transacted-append rs qs s t u done after = after
  Transacted-append rs qs s t u (next {rs = rs'} tx ctx r e agree more) after =
      next tx ctx r e agree (Transacted-append rs' qs _ t u more after)

  pub Transacted-split :
      (rs qs : List TxReceipt) (s u : Store p)
      → Transacted p from_content v w s (rs ++ qs) u
      → (t : Store p) × Transacted p from_content v w s rs t × Transacted p from_content v w t qs u
  Transacted-split [] qs s u h = (s, done, h)
  Transacted-split (r ∷ rs) qs s u (next {t = t} tx ctx _ e agree more) =
      let (m, front, back) = Transacted-split rs qs t u more in
      (m, next tx ctx r e agree front, back)

  -- Transactions do not depend on the representation of the store they begin with.
  pub Transacted-same :
      (rs : List TxReceipt) (s y u : Store p)
      → IsCanonical p.datom_order (datoms p y)
      → opened p s ≡ opened p y
      → Transacted p from_content v w s rs u
      → (u' : Store p) × Transacted p from_content v w y rs u' × (opened p u' ≡ opened p u)
  Transacted-same rs s y u h same done = (y, done, sym same)
  Transacted-same rs s y u h same (next {t = t} tx ctx r e agree more) =
      let schemas = ap (λ x. x.schema) same in
      (
        u,
        next tx ctx r (transact_same p v from_content tx ctx s y t r h same e) (rw schemas at agree)
            more,
        refl,
      )

  pub epoch-transact :
      (tx : Committed) (ctx : TransactContext) (s t : Store p) (r : TxReceipt)
      → IsCanonical p.datom_order (datoms p s)
      → Apply.transact p v from_content tx ctx s ≡ (t, ok r)
      → r.epoch ≡ s.epoch + 1
  epoch-transact tx ctx s t r h e =
      let (x, stored, evolved) = transact_ok p from_content v w tx ctx s t r h e in evolved.1

  epoch_after :
      (tx : Committed) (ctx : TransactContext) (s t : Store p) (r : TxReceipt)
      → IsCanonical p.datom_order (datoms p s)
      → Apply.transact p v from_content tx ctx s ≡ (t, ok r)
      → t.epoch ≡ r.epoch
  epoch_after tx ctx s t r h e =
      let (x, stored, (kept, epoch, evolved)) = transact_ok p from_content v w tx ctx s t r h e in
      ap (λ y. y.epoch) stored ∙ ap (λ y. y.0.epoch) (sym evolved)

  -- The epochs of transactions lie above that of the store before, and up to that of the one after.
  abbrev pub Between : ℕ → ℕ → TxReceipt → Type 0
  Between m n r = (m < r.epoch) × (r.epoch ≤ n)

  pub Transacted-Between :
      (rs : List TxReceipt) (s u : Store p)
      → IsCanonical p.datom_order (datoms p s)
      → Transacted p from_content v w s rs u
      → (s.epoch ≤ u.epoch) × All (Between s.epoch u.epoch) rs
  Transacted-Between rs s u h done = (omega arith, tt)
  Transacted-Between rs s u h (next {t = t} {rs = qs} tx ctx r e agree more) =
      let canonical =
        Transacted-IsCanonical p from_content v w (r ∷ []) s t h (next tx ctx r e agree done) in
      let (le, rest) = Transacted-Between qs t u canonical more in
      let up = epoch-transact tx ctx s t r h e in
      let at_t = epoch_after tx ctx s t r h e in
      (
        omega (arith, le, up, at_t),
        (
          (omega (arith, up), omega (arith, le, at_t)),
          All-map (Between t.epoch u.epoch) (Between s.epoch u.epoch) qs
              (λ q b. (omega (arith, b.0, up, at_t), b.1)) rest,
        ),
      )

  -- The epoch of a transaction is positive, and fits in 64 bits.
  pub receipt_epoch :
      (s u : Store p) (r : TxReceipt)
      → IsCanonical p.datom_order (datoms p s)
      → Transacted p from_content v w s (r ∷ []) u
      → (0 < r.epoch) × (r.epoch < 2 ^ 64)
  receipt_epoch s u r h (next {t = t} tx ctx _ e agree more) =
      let epoch = epoch-transact tx ctx s t r h e in
      let small = transact_epoch p v from_content tx ctx s t r e in
      (omega (arith, epoch), omega (arith, epoch, small))

  -- Transactions that begin with one store begin with one epoch.
  pub next_epoch :
      (s u u' : Store p) (r d : TxReceipt) (rs ds : List TxReceipt)
      → IsCanonical p.datom_order (datoms p s)
      → Transacted p from_content v w s (r ∷ rs) u
      → Transacted p from_content v w s (d ∷ ds) u'
      → r.epoch ≡ d.epoch
  next_epoch s u u' r d rs ds h (next {t = t} tx ctx _ e agree more)
        (next {t = t'} tx' ctx' _ e' agree' more') =
      epoch-transact tx ctx s t r h e ∙ sym (epoch-transact tx' ctx' s t' d h e')

  -- Both orders of evolution give the same schema for what each transaction of a batch stores.
  abbrev pub SteadyEach : List (List Datom × TxId) → Store p → Type 0
  SteadyEach [] s = Unit
  SteadyEach ((ds, tx) ∷ batches) s =
      (t : Store p) (r : TxReceipt)
      → Apply.transact p v from_content (record { node = tx.node; datoms = ds })
          (batch_context from_content tx) s
        ≡ (t, ok r)
      → (evolve_schema w s.schema r.datoms ≡ evolve_schema v s.schema r.datoms)
        × SteadyEach batches t

  -- A batch that succeeds is a sequence of transactions, one for each of its elements.
  abbrev pub Ran : ℕ → Store p → Store p × Result ApplyError (List TxReceipt) → Type 0
  Ran n s (t, err e) = Unit
  Ran n s (t, ok rs) = Transacted p from_content v w s rs t × (length rs ≡ n)

  push-Ran :
      (tx : Committed) (ctx : TransactContext) (n : ℕ) (s t : Store p) (r : TxReceipt)
      (more : Store p × Result ApplyError (List TxReceipt))
      → Apply.transact p v from_content tx ctx s ≡ (t, ok r)
      → evolve_schema w s.schema r.datoms ≡ evolve_schema v s.schema r.datoms
      → Ran n t more
      → Ran (suc n) s (push_receipt p v from_content r more)
  push-Ran tx ctx n s t r (u, err x) e agree h = tt
  push-Ran tx ctx n s t r (u, ok rs) e agree h = (next tx ctx r e agree h.0, ap suc h.1)

  pub transact_each-Ran :
      (batches : List (List Datom × TxId)) (s : Store p)
      → SteadyEach batches s
      → Ran (length batches) s (transact_each p v from_content batches s)
  unfolding transact_each
  transact_each-Ran [] s steady = (done, refl)
  transact_each-Ran ((ds, tx) ∷ batches) s steady =
      let one : Committed = record { node = tx.node; datoms = ds } in
      let ctx : TransactContext = batch_context from_content tx in
      elim (result_cases p v (Apply.transact p v from_content one ctx s)) [
        | inl (t, x, e) ↦ rw e tt
        | inr (t, r, e) ↦
            let (agree, rest) = steady t r e in
            rw e (
              push-Ran one ctx (length batches) s t r (transact_each p v from_content batches t) e
                agree (transact_each-Ran batches t rest))
      ]
