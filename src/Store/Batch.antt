-- ===== src/Store/Batch.antt =====
-- A batch of transactions is the transactions one after the other (apply.rs, INV-FERR-072).
use ferratomic.Prelude.{
  ◌+◌, ◌-◌, ◌^◌, ◌≡◌, refl, sym, ap, ◌∙◌, subst, ◌⊎◌, inl, inr, List, [], ◌∷◌, ◌++◌, append-nil,
  append_assoc, leb, Bool-cases,
}
use ferratomic.Prelude.Bytes.{Bytes}
use ferratomic.Prelude.Results.{Result, ok, err}
use ferratomic.Clock.TxId.{TxId}
use ferratomic.Datom.Types.{EntityId, Datom}
use ferratomic.Positional.MergeLaws.{IsCanonical}
use ferratomic.Prolly.Boundary.{is_empty}
use ferratomic.Store.Evolution.{ApplyError, Visit, evolve_schema}
use ferratomic.Store.Merge.{Parts, StoreRepr, Store, repr_datoms, datoms}
use ferratomic.Store.Apply.{
  TxReceipt, stamped, batch_context, stamp_and_append_metadata, write, evolve, and_then, stage,
  transact, push_receipt, stage_batches, all_new, batch_splice_transact,
}
use ferratomic.Store.Written.{written, written-IsCanonical, written-written, write-eq-written}

module _ (p : Parts) (visit : Visit) where
  -- What a step does to the store applied to another store that differs by what was written
  abbrev carried {ℓ} :
      {A : Type ℓ} → List Datom → Store p × Result ApplyError A → Store p × Result ApplyError A
  carried new (s, r) = (written p new s, r)

  pub result_cases {ℓ} :
      {A : Type ℓ} (x : Store p × Result ApplyError A)
      → ((t : Store p) × (e : ApplyError) × (x ≡ (t, err e)))
        ⊎ ((t : Store p) × (a : A) × (x ≡ (t, ok a)))
  result_cases (t, err e) = inl (t, e, refl)
  result_cases (t, ok a) = inr (t, a, refl)

  pub outcome_cases {ℓ} :
      {A : Type ℓ} (r : Result ApplyError A)
      → ((e : ApplyError) × (r ≡ err e)) ⊎ ((a : A) × (r ≡ ok a))
  outcome_cases (err e) = inl (e, refl)
  outcome_cases (ok a) = inr (a, refl)

  -- Staging reads and changes only the epoch and the schema.
  stage-written :
      (ds all new : List Datom) (s : Store p)
      → stage p visit ds all (written p new s) ≡ carried new (stage p visit ds all s)
  unfolding stage
  stage-written ds all new s = elim (Bool-cases (is_empty ds)) [
    | inl e ↦ rw e refl
    | inr e ↦ rw e (elim (Bool-cases (leb (2 ^ 64 - 1) s.epoch)) [
      | inl f ↦ rw f refl
      | inr f ↦ rw f (elim (outcome_cases (evolve_schema visit s.schema all).1) [
        | inl (x, g) ↦ rw g refl
        | inr (u, g) ↦ rw g refl
      ])
    ])
  ]

  pub stage_ok :
      (ds all : List Datom) (s t : Store p) (r : TxReceipt)
      → stage p visit ds all s ≡ (t, ok r)
      → (r.datoms ≡ all)
        × (t.repr ≡ s.repr)
        × (r.epoch ≡ s.epoch + 1)
        × (evolve p visit all (record s { epoch = r.epoch }) ≡ (t, ok tt))
  unfolding stage
  stage_ok ds all s t r h = elim (Bool-cases (is_empty ds)) [
    | inl e ↦ absurd (failed (rw e at h))
    | inr e ↦ elim (Bool-cases (leb (2 ^ 64 - 1) s.epoch)) [
      | inl f ↦ absurd (failed (rw (e, f) at h))
      | inr f ↦ elim (outcome_cases (evolve_schema visit s.schema all).1) [
        | inl (x, g) ↦ absurd (failed (rw (e, f, g) at h))
        | inr (u, g) ↦ succeeded g (rw (e, f, g) at h)
      ]
    ]
  ]
    where
      failed :
          {u : Store p} {e : ApplyError}
          → ◌≡◌ {A = Store p × Result ApplyError TxReceipt} (u, err e) (t, ok r)
          → ⊥
      failed k = let bad = ap (λ x. x.1) k in cc

      succeeded :
          (evolve_schema visit s.schema all).1 ≡ ok tt
          → ◌≡◌ {A = Store p × Result ApplyError TxReceipt}
              (
                record s { schema = (evolve_schema visit s.schema all).0; epoch = s.epoch + 1 },
                ok (record { epoch = s.epoch + 1; datoms = all }),
              )
              (t, ok r)
          → (r.datoms ≡ all)
            × (t.repr ≡ s.repr)
            × (r.epoch ≡ s.epoch + 1)
            × (evolve p visit all (record s { epoch = r.epoch }) ≡ (t, ok tt))
      succeeded g k =
          let et = ap (λ x. x.0) k in
          let both = ap (λ x. x.1) k in
          let er : ◌≡◌ {A = TxReceipt} (record { epoch = s.epoch + 1; datoms = all }) r = cc in
          (
            sym (ap (λ x. x.datoms) er),
            sym (ap (λ x. x.repr) et),
            sym (ap (λ x. x.epoch) er),
            ap (λ n. evolve p visit all (record s { epoch = n })) (sym (ap (λ x. x.epoch) er))
                ∙ (λ i. (et i, g i)),
          )

  module _ (from_content : Bytes → EntityId) where
    -- The transactions of a batch one after the other
    unfoldable pub transact_each :
        List (List Datom × TxId) → Store p → Store p × Result ApplyError (List TxReceipt)
    transact_each [] s = (s, ok [])
    transact_each ((ds, tx) ∷ batches) s =
        and_then p visit
          (λ receipt t. push_receipt p visit from_content receipt (transact_each batches t))
          (transact p visit from_content (record { node = tx.node; datoms = ds })
            (batch_context from_content tx) s)

    abbrev Receipts : Type 0
    Receipts = Store p × Result ApplyError (List TxReceipt)

    -- The transactions one by one, on a store with `b` written, against the staged batch.
    abbrev Agrees : List Datom → Receipts → Receipts → Type 0
    Agrees b (t, err e) each = each.1 ≡ err e
    Agrees b (t, ok rs) each = each ≡ (written p (b ++ all_new p visit from_content rs) t, ok rs)

    push_err :
        (r : TxReceipt) (each : Receipts) (e : ApplyError)
        → each.1 ≡ err e
        → (push_receipt p visit from_content r each).1 ≡ err e
    push_err r (u, err x) e h = cc
    push_err r (u, ok rs) e h = cc

    push-Agrees :
        (r : TxReceipt) (b : List Datom) (staged each : Receipts)
        → Agrees (b ++ r.datoms) staged each
        → Agrees b
            (push_receipt p visit from_content r staged)
            (push_receipt p visit from_content r each)
    unfolding all_new
    push-Agrees r b (t, err e) each h = push_err r each e h
    push-Agrees r b (t, ok rs) each h =
        ap (push_receipt p visit from_content r) h
        ∙ ap (λ l. (written p l t, ok (r ∷ rs)))
            (append_assoc b r.datoms (all_new p visit from_content rs))

    written_after :
        (r : TxReceipt) (b : List Datom) (s t : Store p)
        → IsCanonical p.datom_order (datoms p s)
        → t.repr ≡ s.repr
        → write p r.datoms (written p b t) ≡ written p (b ++ r.datoms) t
    written_after r b s t h e =
        let canonical : IsCanonical p.datom_order (datoms p t) =
          subst (λ x. IsCanonical p.datom_order (repr_datoms p x)) (sym e) h in
        write-eq-written p r.datoms (written p b t) (written-IsCanonical p b t canonical)
        ∙ written-written p b r.datoms t canonical

    transact_each-Agrees :
        (batches : List (List Datom × TxId)) (b : List Datom) (s : Store p)
        → IsCanonical p.datom_order (datoms p s)
        → Agrees b
            (stage_batches p visit from_content batches s)
            (transact_each batches (written p b s))
    unfolding stage_batches transact_each transact stamped stamp_and_append_metadata all_new
    transact_each-Agrees [] b s h = ap (λ l. (written p l s, ok [])) (sym (append-nil b))
    transact_each-Agrees ((ds, tx) ∷ batches) b s h =
        let all : List Datom = stamp_and_append_metadata from_content ds tx in
        elim (result_cases (stage p visit ds all s)) [
          | inl (t, e, x) ↦ rw (stage-written ds all b s, x) refl
          | inr (t, r, x) ↦
              let kept = (stage_ok ds all s t r x).1 in
              rw (stage-written ds all b s, x, written_after r b s t h kept)
                (push-Agrees r b (stage_batches p visit from_content batches t)
                  (transact_each batches (written p (b ++ r.datoms) t))
                  (transact_each-Agrees batches (b ++ r.datoms) t
                    (subst (λ y. IsCanonical p.datom_order (repr_datoms p y)) (sym kept) h)))
        ]

    abbrev KeepsRepr : StoreRepr → Receipts → Type 0
    KeepsRepr x (t, err e) = Unit
    KeepsRepr x (t, ok rs) = t.repr ≡ x

    push-KeepsRepr :
        (x : StoreRepr) (r : TxReceipt) (staged : Receipts)
        → KeepsRepr x staged
        → KeepsRepr x (push_receipt p visit from_content r staged)
    push-KeepsRepr x r (t, err e) h = h
    push-KeepsRepr x r (t, ok rs) h = h

    stage_batches-KeepsRepr :
        (batches : List (List Datom × TxId)) (s : Store p) (x : StoreRepr)
        → s.repr ≡ x
        → KeepsRepr x (stage_batches p visit from_content batches s)
    unfolding stage_batches
    stage_batches-KeepsRepr [] s x h = h
    stage_batches-KeepsRepr ((ds, tx) ∷ batches) s x h =
        let all : List Datom = stamp_and_append_metadata from_content ds tx in
        elim (result_cases (stage p visit ds all s)) [
          | inl (t, e, y) ↦ rw y tt
          | inr (t, r, y) ↦ rw y (
              push-KeepsRepr x r (stage_batches p visit from_content batches t)
                (stage_batches-KeepsRepr batches t x ((stage_ok ds all s t r y).1 ∙ h)))
        ]

    -- One outcome for both: the same store and receipts, or the same error
    abbrev pub SameOutcome : Receipts → Receipts → Type 0
    SameOutcome (t, err e) each = each.1 ≡ err e
    SameOutcome (t, ok rs) each = each ≡ (t, ok rs)

    finish_batch :
        (r : TxReceipt) (x : StoreRepr) (staged each : Receipts)
        → IsCanonical p.datom_order (repr_datoms p x)
        → KeepsRepr x staged
        → Agrees r.datoms staged each
        → SameOutcome
            (and_then p visit
              (λ (rs : List TxReceipt) t. (write p (all_new p visit from_content rs) t, ok rs))
              (push_receipt p visit from_content r staged))
            (push_receipt p visit from_content r each)
    unfolding all_new
    finish_batch r x (t, err e) each h k a = push_err r each e a
    finish_batch r x (t, ok rs) each h k a =
        ap (push_receipt p visit from_content r) a
        ∙ ap (λ u. (u, ok (r ∷ rs)))
            (sym (
              write-eq-written p (r.datoms ++ all_new p visit from_content rs) t
                (subst (λ y. IsCanonical p.datom_order (repr_datoms p y)) (sym k) h)))

    -- A batch ends as its transactions do when they are applied one after the other: with the same
    -- store and the same receipts, or with the same error.
    pub batch_in_one_order :
        (batches : List (List Datom × TxId)) (s : Store p)
        → IsCanonical p.datom_order (datoms p s)
        → SameOutcome
            (batch_splice_transact p visit from_content batches s)
            (transact_each batches s)
    unfolding batch_splice_transact transact_each is_empty stage_batches transact stamped
        stamp_and_append_metadata
    batch_in_one_order [] s h = refl
    batch_in_one_order ((ds, tx) ∷ batches) s h =
        let all : List Datom = stamp_and_append_metadata from_content ds tx in
        elim (result_cases (stage p visit ds all s)) [
          | inl (t, e, x) ↦ rw x refl
          | inr (t, r, x) ↦
              let kept = (stage_ok ds all s t r x).1 in
              let canonical : IsCanonical p.datom_order (datoms p t) =
                subst (λ y. IsCanonical p.datom_order (repr_datoms p y)) (sym kept) h in
              rw (x, write-eq-written p r.datoms t canonical)
                (finish_batch r t.repr (stage_batches p visit from_content batches t)
                  (transact_each batches (written p r.datoms t)) canonical
                  (stage_batches-KeepsRepr batches t t.repr refl)
                  (transact_each-Agrees batches r.datoms t canonical))
        ]
