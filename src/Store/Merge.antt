-- ===== src/Store/Merge.antt =====
-- The store and the merge of two stores (store.rs, repr.rs, merge.rs, and the positional store's
-- merge.rs and store.rs). An `OrdMap` store stands for what the iteration of its datoms yields; its
-- indexes are left out.
use ferratomic.Prelude.{
  ℕ, suc, max, Bool, true, false, Option, none, some, List, [], ◌∷◌, map, Ordering,
}
use ferratomic.Prelude.Order.{Ord, lesser}
use ferratomic.Clock.TxId.{NodeId, node_ord}
use ferratomic.Datom.Types.{Datom}
use ferratomic.Tx.Schema.{AttributeDef, Schema}
use ferratomic.Filter.{DatomFilter, matches}
use ferratomic.Positional.Live.{Group, live_positions_kernel}
use ferratomic.Positional.ChunkFingerprints.{Hash, compute_fingerprint}
use ferratomic.Positional.Merge.{merge_sort_dedup}
use ferratomic.Positional.MergeLaws.{member}
use ferratomic.Store.Causal.{
  LiveMaps, LiveCausal, LiveSet, build_live_causal, derive_live_set, merge_causal,
}
use ferratomic.Store.Schemas.{SchemaConflict, merge_schemas}

-- The derived orders and equality, the maps, and the content hash of a datom.
pub record Parts : Type 1 where
  pub maps : LiveMaps
  pub datom_order : Ord Datom
  pub def_order : Ord AttributeDef
  pub same_group : Group → Group → Bool
  pub content_hash : Datom → Hash

-- The fields that every constructor fills; the others are computed later from `canonical`.
pub record PositionalStore : Type 0 where
  pub canonical : List Datom
  pub live_bits : List ℕ
  pub fingerprint : Hash

pub data StoreRepr : Type 0 where
  positional : PositionalStore → StoreRepr
  ord_map : List Datom → StoreRepr

-- `sort_unstable`, as an insertion sort, and `dedup`
module _ {ℓ} {A : Type ℓ} (o : Ord A) where
  unfoldable pub insert_sorted : A → List A → List A
  insert_sorted x [] = x ∷ []
  insert_sorted x (y ∷ l) = elim (o.cmp x y) [ Ordering.gt ↦ y ∷ insert_sorted x l | _ ↦ x ∷ y ∷ l ]

  unfoldable pub sort_unstable : List A → List A
  sort_unstable [] = []
  sort_unstable (x ∷ l) = insert_sorted x (sort_unstable l)

  -- `x` is the element kept last.
  unfoldable pub dedup_from : A → List A → List A
  dedup_from x [] = []
  dedup_from x (y ∷ l) = elim (o.cmp x y) [ Ordering.eq ↦ dedup_from x l | _ ↦ y ∷ dedup_from y l ]

  unfoldable pub dedup : List A → List A
  dedup [] = []
  dedup (x ∷ l) = x ∷ dedup_from x l

module _ (p : Parts) where
  unfoldable pub from_sorted_canonical : List Datom → PositionalStore
  from_sorted_canonical canonical = record {
    canonical = canonical;
    live_bits = live_positions_kernel p.same_group canonical;
    fingerprint = compute_fingerprint (map p.content_hash canonical);
  }

  -- `PositionalStore::from_datoms`
  unfoldable pub from_datoms : List Datom → PositionalStore
  from_datoms datoms =
      from_sorted_canonical (dedup p.datom_order (sort_unstable p.datom_order datoms))

  unfoldable pub merge_positional : PositionalStore → PositionalStore → PositionalStore
  merge_positional a b =
      let merged = merge_sort_dedup p.datom_order a.canonical b.canonical in
      record {
        canonical = merged;
        live_bits = live_positions_kernel p.same_group merged;
        fingerprint = compute_fingerprint (map p.content_hash merged);
      }

  unfoldable pub merge_repr : StoreRepr → StoreRepr → PositionalStore
  merge_repr (positional a) (positional b) = merge_positional a b
  merge_repr (positional a) (ord_map b) =
      from_sorted_canonical (merge_sort_dedup p.datom_order a.canonical b)
  merge_repr (ord_map a) (positional b) =
      from_sorted_canonical (merge_sort_dedup p.datom_order a b.canonical)
  merge_repr (ord_map a) (ord_map b) = from_sorted_canonical (merge_sort_dedup p.datom_order a b)

  pub record Store : Type 0 where
    pub repr : StoreRepr
    pub schema : Schema
    pub epoch : ℕ
    pub genesis_node : NodeId
    pub live_causal : LiveCausal p.maps
    pub live_set : LiveSet p.maps
    pub schema_conflicts : List SchemaConflict

  abbrev pub repr_datoms : StoreRepr → List Datom
  repr_datoms (positional a) = a.canonical
  repr_datoms (ord_map a) = a

  -- `Store::datoms`
  abbrev pub datoms : Store → List Datom
  datoms s = repr_datoms s.repr

  unfoldable pub from_merge : Store → Store → Store
  from_merge a b =
      let schema_merge = merge_schemas p.def_order a.schema b.schema in
      let live_causal = merge_causal p.maps a.live_causal b.live_causal in
      record {
        repr = positional (merge_repr a.repr b.repr);
        schema = schema_merge.schema;
        epoch = max a.epoch b.epoch;
        genesis_node = lesser node_ord a.genesis_node b.genesis_node;
        live_causal = live_causal;
        live_set = derive_live_set p.maps live_causal;
        schema_conflicts = schema_merge.conflicts;
      }

  -- What `filter_remote` returns.
  pub record Filtered : Type 0 where
    pub accepted : List Datom
    pub transferred : ℕ
    pub filtered_out : ℕ
    pub already_present : ℕ

  -- One round of its closure, with what the rounds after it return.
  unfoldable pub count_datom : Bool → Option (Unit {0}) → Datom → Filtered → Filtered
  count_datom false present d r = record r { filtered_out = suc r.filtered_out }
  count_datom true (some u) d r = record r {
    accepted = d ∷ r.accepted;
    already_present = suc r.already_present;
  }
  count_datom true none d r = record r {
    accepted = d ∷ r.accepted;
    transferred = suc r.transferred;
  }

  unfoldable pub filter_remote : List Datom → List Datom → DatomFilter → Filtered
  filter_remote local [] filter = record {
    accepted = [];
    transferred = 0;
    filtered_out = 0;
    already_present = 0;
  }
  filter_remote local (d ∷ remote) filter =
      count_datom (matches filter d) (member p.datom_order d local) d
        (filter_remote local remote filter)

  -- `selective_merge`: the merged store, and the counts of the receipt
  unfoldable pub selective_merge : Store → Store → DatomFilter → Store × Filtered
  selective_merge local remote filter =
      let counts = filter_remote (datoms local) (datoms remote) filter in
      let sorted_remote = dedup p.datom_order (sort_unstable p.datom_order counts.accepted) in
      let merged = merge_sort_dedup p.datom_order (datoms local) sorted_remote in
      let schema_merge = merge_schemas p.def_order local.schema remote.schema in
      let live_causal = build_live_causal p.maps merged in
      (
        record {
          repr = positional (from_sorted_canonical merged);
          schema = schema_merge.schema;
          epoch = max local.epoch remote.epoch;
          genesis_node = lesser node_ord local.genesis_node remote.genesis_node;
          live_causal = live_causal;
          live_set = derive_live_set p.maps live_causal;
          schema_conflicts = schema_merge.conflicts;
        },
        counts,
      )
