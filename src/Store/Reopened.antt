-- ===== src/Store/Reopened.antt =====
-- A transaction does not depend on the representation of the store (apply.rs).
use ferratomic.Prelude.{
  ◌-◌, ◌^◌, ◌<◌, ◌≡◌, refl, sym, ap, ◌∙◌, subst, inl, inr, List, leb, Bool-cases, arith,
}
use ferratomic.Prelude.Bytes.{Bytes}
use ferratomic.Prelude.Results.{Result, ok}
use ferratomic.Datom.Types.{EntityId, Datom}
use ferratomic.Positional.MergeLaws.{IsCanonical}
use ferratomic.Prolly.Boundary.{is_empty}
use ferratomic.Store.Evolution.{ApplyError, Visit, evolve_schema}
use ferratomic.Store.Merge.{Parts, Store, repr_datoms, datoms}
use ferratomic.Store.Apply.{TransactContext, TxReceipt, stamped, write, stage, transact}
use ferratomic.Store.Written.{opened, write-eq-written}
use ferratomic.Store.Batch.{result_cases, outcome_cases, stage_ok}
use ferratomic.Tx.Commit.{Committed}

module _ (p : Parts) (v : Visit) where
  stage-opened :
      (ds all : List Datom) (s : Store p)
      → stage p v ds all (opened p s) ≡ (opened p (stage p v ds all s).0, (stage p v ds all s).1)
  unfolding stage
  stage-opened ds all s = elim (Bool-cases (is_empty ds)) [
    | inl e ↦ rw e refl
    | inr e ↦ rw e (elim (Bool-cases (leb (2 ^ 64 - 1) s.epoch)) [
      | inl f ↦ rw f refl
      | inr f ↦ rw f (elim (outcome_cases p v (evolve_schema v s.schema all).1) [
        | inl (x, g) ↦ rw g refl
        | inr (u, g) ↦ rw g refl
      ])
    ])
  ]

  pub stage_epoch :
      (ds all : List Datom) (s t : Store p) (r : TxReceipt)
      → stage p v ds all s ≡ (t, ok r)
      → s.epoch < 2 ^ 64 - 1
  unfolding stage
  stage_epoch ds all s t r h = elim (Bool-cases (is_empty ds)) [
    | inl e ↦ let bad = ap (λ x. x.1) (rw e at h) in cc
    | inr e ↦ elim (Bool-cases (leb (2 ^ 64 - 1) s.epoch)) [
      | inl f ↦ let bad = ap (λ x. x.1) (rw (e, f) at h) in cc
      | inr f ↦ ground arith
    ]
  ]

  write-opened :
      (ds : List Datom) (s x : Store p)
      → IsCanonical p.datom_order (datoms p s)
      → x.repr ≡ s.repr
      → write p ds (opened p x) ≡ write p ds x
  write-opened ds s x h kept =
      let canonical : IsCanonical p.datom_order (datoms p x) =
        subst (λ y. IsCanonical p.datom_order (repr_datoms p y)) (sym kept) h in
      write-eq-written p ds (opened p x) canonical ∙ sym (write-eq-written p ds x canonical)

  module _ (from_content : Bytes → EntityId) (tx : Committed) (ctx : TransactContext) where
    abbrev all : List Datom
    all = stamped from_content tx.node tx.datoms ctx

    pub transact_epoch :
        (s t : Store p) (r : TxReceipt)
        → transact p v from_content tx ctx s ≡ (t, ok r)
        → s.epoch < 2 ^ 64 - 1
    unfolding transact
    transact_epoch s t r e = elim (result_cases p v (stage p v tx.datoms all s)) [
      | inl (x, f, g) ↦ let bad = ap (λ y. y.1) (rw g at e) in cc
      | inr (x, r', g) ↦ stage_epoch tx.datoms all s x r' g
    ]

    transact-opened :
        (s : Store p)
        → IsCanonical p.datom_order (datoms p s)
        → (transact p v from_content tx ctx (opened p s)).1 ≡ (transact p v from_content tx ctx s).1
    unfolding transact
    transact-opened s h = elim (result_cases p v (stage p v tx.datoms all s)) [
      | inl (x, f, g) ↦ rw (stage-opened tx.datoms all s, g) refl
      | inr (x, r, g) ↦ rw (stage-opened tx.datoms all s, g) refl
    ]

    transact-opened_ok :
        (s t : Store p) (r : TxReceipt)
        → IsCanonical p.datom_order (datoms p s)
        → (transact p v from_content tx ctx s).1 ≡ ok r
        → transact p v from_content tx ctx (opened p s) ≡ transact p v from_content tx ctx s
    unfolding transact
    transact-opened_ok s t r h e = elim (result_cases p v (stage p v tx.datoms all s)) [
      | inl (x, f, g) ↦ let bad = rw g at e in cc
      | inr (x, r', g) ↦
          rw (stage-opened tx.datoms all s, g)
            (ap (λ y. (y, ok r'))
              (write-opened r'.datoms s x h (stage_ok p v tx.datoms all s x r' g).1))
    ]

    -- On two stores that differ in their representation only, it gives one and the same.
    pub transact_same :
        (y s t : Store p) (r : TxReceipt)
        → IsCanonical p.datom_order (datoms p s)
        → opened p y ≡ opened p s
        → transact p v from_content tx ctx y ≡ (t, ok r)
        → transact p v from_content tx ctx s ≡ (t, ok r)
    transact_same y s t r h same e =
        let canonical : IsCanonical p.datom_order (datoms p y) =
          subst (IsCanonical p.datom_order) (sym (ap (datoms p) same)) h in
        let run : Store p → Store p × Result ApplyError TxReceipt =
          transact p v from_content tx ctx in
        let result : (run y).1 ≡ ok r = ap (λ x. x.1) e in
        let outcomes : (run s).1 ≡ (run y).1 =
          sym (transact-opened s h)
          ∙ ap (λ x. (run x).1) (sym same)
          ∙ transact-opened y canonical in
        sym (transact-opened_ok s t r h (outcomes ∙ result))
        ∙ ap run (sym same)
        ∙ transact-opened_ok y t r canonical result
        ∙ e
