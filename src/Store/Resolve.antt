-- ===== src/Store/Resolve.antt =====
-- The resolution of an attribute with one value: the last writer wins (query.rs).
use ferratomic.Prelude.{
  ◌≡◌, refl, sym, ap, ◌∙◌, ◌⊎◌, inl, inr, Option, none, some, [], ◌∷◌, Ordering, Ordering-cases,
  Option-cases, if◌then◌else◌,
}
use ferratomic.Prelude.Order.{Ord, eq_cases, pair_ord, then_with}
use ferratomic.Prelude.TreeMap
use ferratomic.Prelude.TreeMap.{TreeMap, lookup}
use ferratomic.Clock.TxId.{TxId, tx_cmp, tx_ord}
use ferratomic.Datom.Types.{Value, assert, retract}
use ferratomic.Store.Causal.{Key, Event, LiveMaps, is_assert, LiveCausal, event, entry_of}

-- An assertion: when it was made, and its value.
abbrev pub Write : Type 0
Write = TxId × Value

module _ (m : LiveMaps) where
  -- `max_by`: of the best so far and the next, the next unless it compares less
  unfoldable pub take_later : Write → Option Write → Write
  take_later x none = x
  take_later (t, v) (some (best_tx, best)) =
      elim (then_with (tx_cmp best_tx t) (m.value_order.cmp best v)) [
        | Ordering.gt ↦ (best_tx, best)
        | _ ↦ (t, v)
      ]

  unfoldable pub latest_from : Option Write → TreeMap Value Event → Option Write
  latest_from best [] = best
  latest_from best ((v, (t, op)) ∷ es) =
      latest_from (if is_assert op then some (take_later (t, v) best) else best) es

  abbrev value_of : Option Write → Option Value
  value_of none = none
  value_of (some (t, v)) = some v

  -- `select_latest_live_value`
  unfoldable pub select_latest_live_value : m.entries.Carrier → Option Value
  select_latest_live_value es = value_of (latest_from none (m.entries.iter es))

  abbrev resolve_entries : Option m.entries.Carrier → Option Value
  resolve_entries none = none
  resolve_entries (some es) = select_latest_live_value es

  unfoldable pub live_resolve : Key → LiveCausal m → Option Value
  live_resolve k causal = resolve_entries (m.causal.get k causal)

  abbrev write_order : Ord Write
  write_order = pair_ord tx_ord m.value_order

  abbrev Writes : Type 1
  Writes = Write → Type 0

  -- The greatest of a set of writes.
  abbrev IsGreatest : Writes → Option Write → Type 0
  IsGreatest W none = (x : Write) → ¬ W x
  IsGreatest W (some b) = W b × ((x : Write) → W x → ¬ (write_order.cmp b x ≡ Ordering.lt))

  abbrev Add : Writes → Write → Writes
  Add W w x = W x ⊎ (x ≡ w)

  IsGreatest-same :
      (W V : Writes) (b : Option Write)
      → ((x : Write) → W x → V x)
      → ((x : Write) → V x → W x)
      → IsGreatest W b
      → IsGreatest V b
  IsGreatest-same W V none f g h = λ x v. h x (g x v)
  IsGreatest-same W V (some b) f g (w, h) = (f b w, λ x v. h x (g x v))

  not_below_itself : (w x : Write) → x ≡ w → ¬ (write_order.cmp w x ≡ Ordering.lt)
  not_below_itself w x e k =
      let itself = write_order.cmp_refl w in
      let below : write_order.cmp w w ≡ Ordering.lt = rw e at k in cc

  take_later-IsGreatest :
      (W : Writes) (w : Write) (b : Option Write)
      → IsGreatest W b
      → IsGreatest (Add W w) (some (take_later w b))
  unfolding take_later
  take_later-IsGreatest W w none h =
      (inr refl, λ x a. elim a [ inl c ↦ absurd (h x c) | inr e ↦ not_below_itself w x e ])
  take_later-IsGreatest W w (some b) (c, h) = elim (Ordering-cases (write_order.cmp b w)) [
    | inl e ↦
        rw (e, take_later)
          (
            inr refl,
            λ x a. elim a [
              | inl d ↦ λ k. h x d (write_order.cmp_trans b w x e k)
              | inr d ↦ not_below_itself w x d
            ],
          )
    | inr (inl e) ↦
        let same : b ≡ w = write_order.eq_of_cmp b w e in
        rw (e, take_later)
          (
            inr refl,
            λ x a. elim a [ inl d ↦ rw (sym same) (h x d) | inr d ↦ not_below_itself w x d ],
          )
    | inr (inr e) ↦
        rw (e, take_later)
          (
            inl c,
            λ x a. elim a [
              | inl d ↦ h x d
              | inr d ↦ λ k. let k2 : write_order.cmp b w ≡ Ordering.lt = rw d at k in cc
            ],
          )
  ]

  -- The assertions among the entries.
  abbrev Asserts : TreeMap Value Event → Writes
  Asserts [] x = ⊥
  Asserts ((v, (t, op)) ∷ es) x = ((x ≡ (t, v)) × (op ≡ assert)) ⊎ Asserts es x

  latest_from-IsGreatest :
      (W : Writes) (es : TreeMap Value Event) (b : Option Write)
      → IsGreatest W b
      → IsGreatest (λ x. W x ⊎ Asserts es x) (latest_from b es)
  unfolding latest_from
  latest_from-IsGreatest W [] b h =
      IsGreatest-same W (λ x. W x ⊎ Asserts [] x) b (λ x a. inl a)
        (λ x a. elim a [ inl c ↦ c | inr n ↦ absurd n ]) h
  latest_from-IsGreatest W ((v, (t, assert)) ∷ es) b h =
      IsGreatest-same (λ x. Add W (t, v) x ⊎ Asserts es x) _ _
        (λ x a. elim a [
          | inl (inl c) ↦ inl c
          | inl (inr e) ↦ inr (inl (e, refl))
          | inr c ↦ inr (inr c)
        ])
        (λ x a. elim a [ inl c ↦ inl (inl c) | inr (inl e) ↦ inl (inr e.0) | inr (inr c) ↦ inr c ])
        (latest_from-IsGreatest (Add W (t, v)) es (some (take_later (t, v) b))
          (take_later-IsGreatest W (t, v) b h))
  latest_from-IsGreatest W ((v, (t, retract)) ∷ es) b h =
      IsGreatest-same (λ x. W x ⊎ Asserts es x) _ _
        (λ x a. elim a [ inl c ↦ inl c | inr c ↦ inr (inr c) ])
        (λ x a. elim a [ inl c ↦ inl c | inr (inl e) ↦ absurd (cc (e.1)) | inr (inr c) ↦ inr c ])
        (latest_from-IsGreatest W es b h)

  Above-Asserts :
      (w v : Value) (t : TxId) (es : TreeMap Value Event)
      → TreeMap.Above m.value_order w es
      → Asserts es (t, v)
      → m.value_order.cmp w v ≡ Ordering.lt
  Above-Asserts w v t [] a n = absurd n
  Above-Asserts w v t ((u, e) ∷ es) a (inl (same, op)) =
      let same_value : v ≡ u = ap (λ x. x.1) same in rw same_value (a.0)
  Above-Asserts w v t ((u, e) ∷ es) a (inr b) = Above-Asserts w v t es a.1 b

  lookup-Asserts :
      (v : Value) (t : TxId) (es : TreeMap Value Event)
      → TreeMap.IsSorted m.value_order es
      → Asserts es (t, v)
      → lookup m.value_order v es ≡ some (t, assert)
  lookup-Asserts v t [] s n = absurd n
  lookup-Asserts v t ((u, (r, op)) ∷ es) s (inl (same, is)) =
      let same_value : v ≡ u = ap (λ x. x.1) same in
      let same_tx : t ≡ r = ap (λ x. x.0) same in
      rw (same_value, same_tx, sym is) (TreeMap.lookup_head m.value_order u (r, op) es)
  lookup-Asserts v t ((u, (r, op)) ∷ es) s (inr b) =
      let below = Above-Asserts u v t es s.0 b in
      let differ : ¬ (m.value_order.cmp v u ≡ Ordering.eq) =
        λ e. let same = m.value_order.eq_of_cmp v u e in cc (below, m.value_order.cmp_refl u) in
      TreeMap.lookup_ne m.value_order v u (r, op) es differ ∙ lookup-Asserts v t es s.1 b

  Asserts-lookup :
      (v : Value) (t : TxId) (es : TreeMap Value Event)
      → lookup m.value_order v es ≡ some (t, assert)
      → Asserts es (t, v)
  Asserts-lookup v t [] h = absurd (cc (h, TreeMap.lookup-Above m.value_order v [] tt))
  Asserts-lookup v t ((u, (r, op)) ∷ es) h = elim (eq_cases m.value_order v u) [
    | inl e ↦
        let head = TreeMap.lookup_head m.value_order u (r, op) es in
        let found : ◌≡◌ {A = Option Event} (some (r, op)) (some (t, assert)) = cc (head, h, e) in
        let same_tx : r ≡ t = cc in let same_op : op ≡ assert = cc in inl (cc, same_op)
    | inr n ↦
        inr (Asserts-lookup v t es (sym (TreeMap.lookup_ne m.value_order v u (r, op) es n) ∙ h))
  ]

  -- The asserted value with the greatest identifier, and of those the greatest value; or none, when
  -- no value is asserted.
  abbrev pub IsLastWriter : Key → LiveCausal m → Option Value → Type 0
  IsLastWriter k c none = (v : Value) (t : TxId) → ¬ (event m k v c ≡ some (t, assert))
  IsLastWriter k c (some v) =
      (t : TxId) × (event m k v c ≡ some (t, assert))
      × ((w : Value) (s : TxId)
          → event m k w c ≡ some (s, assert)
          → ¬ (then_with (tx_cmp t s) (m.value_order.cmp v w) ≡ Ordering.lt))

  chosen :
      (k : Key) (c : LiveCausal m) (es : m.entries.Carrier) (b : Option Write)
      → m.causal.get k c ≡ some es
      → IsGreatest (λ x. ⊥ ⊎ Asserts (m.entries.iter es) x) b
      → IsLastWriter k c (value_of b)
  chosen k c es none f h = λ v t e.
      h (t, v)
        (inr (
          Asserts-lookup v t (m.entries.iter es)
            (m.entries.lookup-iter v es ∙ sym (ap (entry_of m v) f) ∙ e)))
  chosen k c es (some (t, v)) f (inl n, h) = absurd n
  chosen k c es (some (t, v)) f (inr a, h) = (
    t,
    ap (entry_of m v) f
        ∙ sym (m.entries.lookup-iter v es)
        ∙ lookup-Asserts v t (m.entries.iter es) (m.entries.iter-IsSorted es) a,
    λ w s e.
        h (s, w)
          (inr (
            Asserts-lookup w s (m.entries.iter es)
              (m.entries.lookup-iter w es ∙ sym (ap (entry_of m w) f) ∙ e))),
  )

  -- Of the values of a key whose event is an assertion, `live_resolve` gives the one with the
  -- greatest transaction identifier, of equal ones the greatest value; it gives none only when the
  -- key has no such value.
  pub live_resolve-IsLastWriter : (k : Key) (c : LiveCausal m) → IsLastWriter k c (live_resolve k c)
  unfolding live_resolve select_latest_live_value
  live_resolve-IsLastWriter k c = elim (Option-cases (m.causal.get k c)) [
    | inl e ↦ rw (e, live_resolve) (λ v t h. absurd (cc (h, ap (entry_of m v) e)))
    | inr (es, e) ↦
        rw (e, live_resolve, select_latest_live_value)
          (chosen k c es (latest_from none (m.entries.iter es)) e
            (latest_from-IsGreatest (λ x. ⊥) (m.entries.iter es) none (λ x n. n)))
  ]
