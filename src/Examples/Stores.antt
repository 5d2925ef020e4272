-- ===== src/Examples/Stores.antt =====
-- Merges of two concrete stores.
use ferratomic.Prelude.{◌+◌, ◌≤◌, ◌≡◌, [], length, replicate}
use ferratomic.Datom.Types.{Datom}
use ferratomic.Filter.{matches}
use ferratomic.Filter.Union.{kept}
use ferratomic.Filter.{everything}
use ferratomic.Positional.ChunkFingerprints.{zero_hash}
use ferratomic.Positional.MergeLaws.{member, either}
use ferratomic.Store.Causal.{build_live_causal, derive_live_set}
use ferratomic.Store.LiveSet.{derive_live_set-IsSynced}
use ferratomic.Store.Merge.{
  Parts, Store, ord_map, positional, from_sorted_canonical, from_merge, selective_merge, datoms,
}
use ferratomic.Store.Converge.{IsStore, IsSame, from_merge_converges}
use ferratomic.Store.Selective.{receipt_total, selective_merge_receipt}
use ferratomic.Examples.Definitions.{
  def_order, our_schema, their_schema, our_schema-IsSchema, their_schema-IsSchema,
}
use ferratomic.Examples.Lattices.{maps, same_group}
use ferratomic.Examples.Selections.{datom_ord, ours, theirs, ours-IsCanonical, shared}

abbrev pub parts : Parts
parts = record {
  maps = maps;
  datom_order = datom_ord;
  def_order = def_order;
  same_group = same_group;
  content_hash = λ d. zero_hash;
}

abbrev pub our_store : Store parts
our_store = record {
  repr = positional (from_sorted_canonical parts ours);
  schema = our_schema;
  epoch = 7;
  genesis_node = replicate 16 1;
  live_causal = build_live_causal maps ours;
  live_set = derive_live_set maps (build_live_causal maps ours);
  schema_conflicts = [];
}

abbrev their_store : Store parts
their_store = record {
  repr = ord_map theirs;
  schema = their_schema;
  epoch = 9;
  genesis_node = replicate 16 2;
  live_causal = build_live_causal maps theirs;
  live_set = derive_live_set maps (build_live_causal maps theirs);
  schema_conflicts = [];
}

pub our_store-IsStore : IsStore parts our_store
unfolding from_sorted_canonical
our_store-IsStore = record {
  canonical = ours-IsCanonical;
  schema = our_schema-IsSchema;
  synced = derive_live_set-IsSynced maps (build_live_causal maps ours);
}

their_store-IsStore : IsStore parts their_store
their_store-IsStore = record {
  canonical = (tt, tt);
  schema = their_schema-IsSchema;
  synced = derive_live_set-IsSynced maps (build_live_causal maps theirs);
}

from_merge_converges_example :
    IsStore parts (from_merge parts our_store their_store)
    × IsSame parts (from_merge parts our_store their_store) (from_merge parts their_store our_store)
    × IsSame parts
        (from_merge parts (from_merge parts our_store their_store) our_store)
        (from_merge parts our_store (from_merge parts their_store our_store))
    × IsSame parts (from_merge parts our_store our_store) our_store
    × (our_store.epoch ≤ (from_merge parts our_store their_store).epoch)
    × (their_store.epoch ≤ (from_merge parts our_store their_store).epoch)
from_merge_converges_example =
    from_merge_converges parts our_store their_store our_store our_store-IsStore their_store-IsStore
      our_store-IsStore

selective_merge_receipt_example :
    ((i : Datom)
      → member datom_ord i (datoms parts (selective_merge parts their_store our_store shared).0)
        ≡ either
            (member datom_ord i (datoms parts their_store))
            (kept (matches shared i) (member datom_ord i (datoms parts our_store))))
    × (length (datoms parts (selective_merge parts their_store our_store shared).0)
        ≡ length (datoms parts their_store)
          + (selective_merge parts their_store our_store shared).1.transferred)
    × (receipt_total parts (selective_merge parts their_store our_store shared).1
        ≡ length (datoms parts our_store))
    × (datoms parts (selective_merge parts their_store our_store everything).0
        ≡ datoms parts (from_merge parts their_store our_store))
selective_merge_receipt_example =
    selective_merge_receipt parts their_store our_store shared their_store-IsStore our_store-IsStore
