-- ===== src/Store/Converge.antt =====
-- Merging stores converges (INV-FERR-001 to INV-FERR-004, INV-FERR-007, INV-FERR-010).
use ferratomic.Prelude.{◌≤◌, ◌≡◌, refl, sym, ap, ◌∙◌, [], arith}
use ferratomic.Prelude.Order.{lesser_comm, lesser_idem, lesser_assoc}
use ferratomic.Clock.TxId.{node_ord}
use ferratomic.Datom.Types.{Value}
use ferratomic.Positional.Merge.{merge_sort_dedup}
use ferratomic.Positional.MergeLaws.{
  IsCanonical, merge_sort_dedup_union, merge_sort_dedup-IsCanonical,
}
use ferratomic.Store.OrdMap.{united}
use ferratomic.Store.Causal.{Key, event, max_event, was_live, merge_causal}
use ferratomic.Store.EventOrder.{events_comm, events_idem, events_assoc}
use ferratomic.Store.Events.{event-merge_causal}
use ferratomic.Store.LiveSet.{is_live, IsSynced, derive_live_set-IsSynced}
use ferratomic.Store.SchemaLaws.{IsSchema}
use ferratomic.Store.SchemaUnion.{
  merge_schemas-IsSchema, merge_schemas_comm, merge_schemas_idem, merge_schemas_assoc,
}
use ferratomic.Store.Merge.{
  Parts, StoreRepr, positional, ord_map, merge_repr, merge_positional, from_sorted_canonical, Store,
  repr_datoms, datoms, from_merge,
}

module _ (p : Parts) where
  -- The datoms are sorted without duplicates, the schema is in the order of its attributes, and the
  -- LIVE set is that of the lattice.
  pub record IsStore (s : Store p) : Type 0 where
    pub canonical : IsCanonical p.datom_order (datoms p s)
    pub schema : IsSchema s.schema
    pub synced : IsSynced p.maps s.live_causal s.live_set

  -- What a store answers: its datoms, schema, epoch and genesis node, the event of each triple, and
  -- which values are live.
  pub record IsSame (s t : Store p) : Type 0 where
    pub datoms_eq : datoms p s ≡ datoms p t
    pub schema_eq : s.schema ≡ t.schema
    pub epoch_eq : s.epoch ≡ t.epoch
    pub genesis_eq : s.genesis_node ≡ t.genesis_node
    pub event_eq :
        (k : Key) (v : Value) → event p.maps k v s.live_causal ≡ event p.maps k v t.live_causal
    pub live_eq :
        (k : Key) (v : Value) → is_live p.maps k v s.live_set ≡ is_live p.maps k v t.live_set

  -- Of any two representations the result is that of the merged datoms.
  pub canonical-merge_repr :
      (a b : StoreRepr)
      → merge_repr p a b
        ≡ from_sorted_canonical p
            (merge_sort_dedup p.datom_order (repr_datoms p a) (repr_datoms p b))
  unfolding merge_repr merge_positional from_sorted_canonical
  canonical-merge_repr (positional a) (positional b) = refl
  canonical-merge_repr (positional a) (ord_map b) = refl
  canonical-merge_repr (ord_map a) (positional b) = refl
  canonical-merge_repr (ord_map a) (ord_map b) = refl

  pub datoms-from_merge :
      (a b : Store p)
      → datoms p (from_merge p a b) ≡ merge_sort_dedup p.datom_order (datoms p a) (datoms p b)
  unfolding from_merge from_sorted_canonical
  datoms-from_merge a b = ap (λ s. s.canonical) (canonical-merge_repr a.repr b.repr)

  event-from_merge :
      (a b : Store p) (k : Key) (v : Value)
      → event p.maps k v (from_merge p a b).live_causal
        ≡ united max_event (event p.maps k v a.live_causal) (event p.maps k v b.live_causal)
  unfolding from_merge
  event-from_merge a b k v = event-merge_causal p.maps k v a.live_causal b.live_causal

  from_merge-IsSynced :
      (a b : Store p) → IsSynced p.maps (from_merge p a b).live_causal (from_merge p a b).live_set
  unfolding from_merge
  from_merge-IsSynced a b =
      derive_live_set-IsSynced p.maps (merge_causal p.maps a.live_causal b.live_causal)

  pub from_merge-IsStore : (a b : Store p) → IsStore a → IsStore b → IsStore (from_merge p a b)
  unfolding from_merge
  from_merge-IsStore a b s t = record {
    canonical = rw (datoms-from_merge a b) (
        merge_sort_dedup-IsCanonical p.datom_order (datoms p a) (datoms p b) s.canonical
          t.canonical);
    schema = merge_schemas-IsSchema p.def_order a.schema b.schema s.schema;
    synced = from_merge-IsSynced a b;
  }

  -- Stores whose events agree have the same live values.
  same_live :
      (s t : Store p)
      → IsSynced p.maps s.live_causal s.live_set
      → IsSynced p.maps t.live_causal t.live_set
      → ((k : Key) (v : Value) → event p.maps k v s.live_causal ≡ event p.maps k v t.live_causal)
      → (k : Key) (v : Value) → is_live p.maps k v s.live_set ≡ is_live p.maps k v t.live_set
  same_live s t i j h k v = i k v ∙ ap (was_live p.maps) (h k v) ∙ sym (j k v)

  from_merge_comm :
      (a b : Store p) → IsStore a → IsStore b → IsSame (from_merge p a b) (from_merge p b a)
  unfolding from_merge
  from_merge_comm a b s t =
      let laws =
        merge_sort_dedup_union p.datom_order (datoms p a) (datoms p b) [] s.canonical t.canonical
          tt in
      let events : (k : Key) (v : Value)
          → event p.maps k v (from_merge p a b).live_causal
            ≡ event p.maps k v (from_merge p b a).live_causal =
        λ k v.
          event-from_merge a b k v
          ∙ events_comm (event p.maps k v a.live_causal) (event p.maps k v b.live_causal)
          ∙ sym (event-from_merge b a k v) in
      record {
        datoms_eq = datoms-from_merge a b ∙ laws.2 ∙ sym (datoms-from_merge b a);
        schema_eq =
            ap (λ r. r.schema) (merge_schemas_comm p.def_order a.schema b.schema s.schema t.schema);
        epoch_eq = omega arith;
        genesis_eq = lesser_comm node_ord a.genesis_node b.genesis_node;
        event_eq = events;
        live_eq =
            same_live (from_merge p a b) (from_merge p b a) (from_merge-IsSynced a b)
              (from_merge-IsSynced b a) events;
      }

  from_merge_idem : (a : Store p) → IsStore a → IsSame (from_merge p a a) a
  unfolding from_merge
  from_merge_idem a s =
      let laws = merge_sort_dedup_union p.datom_order (datoms p a) [] [] s.canonical tt tt in
      let events : (k : Key) (v : Value)
          → event p.maps k v (from_merge p a a).live_causal ≡ event p.maps k v a.live_causal =
        λ k v. event-from_merge a a k v ∙ events_idem (event p.maps k v a.live_causal) in
      record {
        datoms_eq = datoms-from_merge a a ∙ laws.4;
        schema_eq = ap (λ r. r.schema) (merge_schemas_idem p.def_order a.schema s.schema);
        epoch_eq = omega arith;
        genesis_eq = lesser_idem node_ord a.genesis_node;
        event_eq = events;
        live_eq = same_live (from_merge p a a) a (from_merge-IsSynced a a) s.synced events;
      }

  from_merge_assoc :
      (a b c : Store p)
      → IsStore a
      → IsStore b
      → IsStore c
      → IsSame (from_merge p (from_merge p a b) c) (from_merge p a (from_merge p b c))
  unfolding from_merge
  from_merge_assoc a b c s t u =
      let laws =
        merge_sort_dedup_union p.datom_order (datoms p a) (datoms p b) (datoms p c) s.canonical
          t.canonical u.canonical in
      let ab = from_merge p a b in
      let bc = from_merge p b c in
      let events : (k : Key) (v : Value)
          → event p.maps k v (from_merge p ab c).live_causal
            ≡ event p.maps k v (from_merge p a bc).live_causal =
        λ k v. cc (
          event-from_merge ab c k v,
          event-from_merge a b k v,
          event-from_merge a bc k v,
          event-from_merge b c k v,
          events_assoc (event p.maps k v a.live_causal) (event p.maps k v b.live_causal)
              (event p.maps k v c.live_causal),
        ) in
      record {
        datoms_eq = cc (
          datoms-from_merge ab c,
          datoms-from_merge a b,
          datoms-from_merge a bc,
          datoms-from_merge b c,
          laws.3,
        );
        schema_eq =
            merge_schemas_assoc p.def_order a.schema b.schema c.schema s.schema t.schema u.schema;
        epoch_eq = omega arith;
        genesis_eq = lesser_assoc node_ord a.genesis_node b.genesis_node c.genesis_node;
        event_eq = events;
        live_eq =
            same_live (from_merge p ab c) (from_merge p a bc) (from_merge-IsSynced ab c)
              (from_merge-IsSynced a bc) events;
      }

  -- Of well-formed stores, the merge is well formed; it is commutative, associative and idempotent in
  -- all that a store answers; and its epoch is not below that of either store.
  pub from_merge_converges :
      (a b c : Store p)
      → IsStore a
      → IsStore b
      → IsStore c
      → IsStore (from_merge p a b)
        × IsSame (from_merge p a b) (from_merge p b a)
        × IsSame (from_merge p (from_merge p a b) c) (from_merge p a (from_merge p b c))
        × IsSame (from_merge p a a) a
        × (a.epoch ≤ (from_merge p a b).epoch)
        × (b.epoch ≤ (from_merge p a b).epoch)
  unfolding from_merge
  from_merge_converges a b c s t u = (
    from_merge-IsStore a b s t,
    from_merge_comm a b s t,
    from_merge_assoc a b c s t u,
    from_merge_idem a s,
    omega arith,
    omega arith,
  )
