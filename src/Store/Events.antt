-- ===== src/Store/Events.antt =====
-- What one round of each operation on the LIVE lattice does to the event of a triple.
use ferratomic.Prelude.{
  ◌≡◌, refl, ap, ◌∙◌, ◌⊎◌, inl, inr, Option, none, some, Ordering, Ordering-cases, Option-cases,
}
use ferratomic.Prelude.Order.{eq_cases}
use ferratomic.Clock.TxId.{tx_cmp}
use ferratomic.Datom.Types.{Value, Datom}
use ferratomic.Store.OrdMap.{united}
use ferratomic.Store.Causal.{
  Key, Event, LiveMaps, key, event_of, max_event, LiveCausal, entries_or_default, entry_of, event,
  retain_latest, build_round, record_event, merge_causal,
}

-- What an event becomes when a datom of its triple comes.
abbrev pub later : Datom → Option Event → Option Event
later d none = some (event_of d)
later d (some (t, op)) = elim (tx_cmp t d.tx) [ Ordering.lt ↦ some (event_of d) | _ ↦ some (t, op) ]

module _ (m : LiveMaps) where
  get-entries_or_default :
      (v : Value) (o : Option m.entries.Carrier)
      → m.entries.get v (entries_or_default m o) ≡ entry_of m v o
  get-entries_or_default v none = m.entries.get-empty v
  get-entries_or_default v (some es) = refl

  event_write :
      (k : Key) (v : Value) (es : m.entries.Carrier) (c : LiveCausal m)
      → event m k v (m.causal.insert k es c) ≡ m.entries.get v es
  event_write k v es c = ap (entry_of m v) (m.causal.get-insert k es c)

  event_write_ne :
      (i k : Key) (v : Value) (es : m.entries.Carrier) (c : LiveCausal m)
      → ¬ (m.key_order.cmp i k ≡ Ordering.eq)
      → event m i v (m.causal.insert k es c) ≡ event m i v c
  event_write_ne i k v es c h = ap (entry_of m v) (m.causal.get-insert_ne i k es c h)

  get-retain_latest :
      (d : Datom) (es : m.entries.Carrier)
      → m.entries.get d.value (retain_latest m d (m.entries.get d.value es) es)
        ≡ later d (m.entries.get d.value es)
  unfolding retain_latest
  get-retain_latest d es = elim (Option-cases (m.entries.get d.value es)) [
    | inl e ↦ rw (e, retain_latest) (m.entries.get-insert d.value (event_of d) es)
    | inr ((t, op), e) ↦ elim (Ordering-cases (tx_cmp t d.tx)) [
      | inl h ↦ rw (e, h, retain_latest, later) (m.entries.get-insert d.value (event_of d) es)
      | inr (inl h) ↦ rw (e, h, retain_latest, later) e
      | inr (inr h) ↦ rw (e, h, retain_latest, later) e
    ]
  ]

  get-retain_latest_ne :
      (d : Datom) (v : Value) (o : Option Event) (es : m.entries.Carrier)
      → ¬ (m.value_order.cmp v d.value ≡ Ordering.eq)
      → m.entries.get v (retain_latest m d o es) ≡ m.entries.get v es
  unfolding retain_latest
  get-retain_latest_ne d v none es h = m.entries.get-insert_ne v d.value (event_of d) es h
  get-retain_latest_ne d v (some (t, op)) es h = elim (Ordering-cases (tx_cmp t d.tx)) [
    | inl e ↦ rw (e, retain_latest) (m.entries.get-insert_ne v d.value (event_of d) es h)
    | inr (inl e) ↦ rw (e, retain_latest) refl
    | inr (inr e) ↦ rw (e, retain_latest) refl
  ]

  pub event-build_round :
      (d : Datom) (c : LiveCausal m)
      → event m (key d) d.value (build_round m d c) ≡ later d (event m (key d) d.value c)
  unfolding build_round
  event-build_round d c =
      let es = entries_or_default m (m.causal.get (key d) c) in
      event_write (key d) d.value _ c
      ∙ get-retain_latest d es
      ∙ ap (later d) (get-entries_or_default d.value (m.causal.get (key d) c))

  -- The events of other triples stay.
  pub event-build_round_ne :
      (d : Datom) (k : Key) (v : Value) (c : LiveCausal m)
      → (¬ (m.key_order.cmp k (key d) ≡ Ordering.eq))
        ⊎ (¬ (m.value_order.cmp v d.value ≡ Ordering.eq))
      → event m k v (build_round m d c) ≡ event m k v c
  unfolding build_round
  event-build_round_ne d k v c (inl h) = event_write_ne k (key d) v _ c h
  event-build_round_ne d k v c (inr h) = elim (eq_cases m.key_order k (key d)) [
    | inl e ↦
        let es = entries_or_default m (m.causal.get (key d) c) in
        rw e (
          event_write (key d) v _ c
          ∙ get-retain_latest_ne d v (m.entries.get d.value es) es h
          ∙ get-entries_or_default v (m.causal.get (key d) c))
    | inr n ↦ event_write_ne k (key d) v _ c n
  ]

  pub event-record_event :
      (d : Datom) (c : LiveCausal m)
      → event m (key d) d.value (record_event m d c) ≡ some (event_of d)
  unfolding record_event
  event-record_event d c =
      event_write (key d) d.value _ c ∙ m.entries.get-insert d.value (event_of d) _

  pub event-record_event_ne :
      (d : Datom) (k : Key) (v : Value) (c : LiveCausal m)
      → (¬ (m.key_order.cmp k (key d) ≡ Ordering.eq))
        ⊎ (¬ (m.value_order.cmp v d.value ≡ Ordering.eq))
      → event m k v (record_event m d c) ≡ event m k v c
  unfolding record_event
  event-record_event_ne d k v c (inl h) = event_write_ne k (key d) v _ c h
  event-record_event_ne d k v c (inr h) = elim (eq_cases m.key_order k (key d)) [
    | inl e ↦ rw e (
        event_write (key d) v _ c
        ∙ m.entries.get-insert_ne v d.value (event_of d) _ h
        ∙ get-entries_or_default v (m.causal.get (key d) c))
    | inr n ↦ event_write_ne k (key d) v _ c n
  ]

  entry_of-united :
      (v : Value) (x y : Option m.entries.Carrier)
      → entry_of m v (united (λ a b. m.entries.union_with max_event a b) x y)
        ≡ united max_event (entry_of m v x) (entry_of m v y)
  entry_of-united v none y = refl
  entry_of-united v (some x) none = united-none (m.entries.get v x)
    where
      united-none : (e : Option Event) → e ≡ united max_event e none
      united-none none = refl
      united-none (some e) = refl
  entry_of-united v (some x) (some y) = m.entries.get-union_with max_event v x y

  pub event-merge_causal :
      (k : Key) (v : Value) (a b : LiveCausal m)
      → event m k v (merge_causal m a b) ≡ united max_event (event m k v a) (event m k v b)
  unfolding merge_causal
  event-merge_causal k v a b =
      ap (entry_of m v) (m.causal.get-union_with (λ x y. m.entries.union_with max_event x y) k a b)
      ∙ entry_of-united v (m.causal.get k a) (m.causal.get k b)
