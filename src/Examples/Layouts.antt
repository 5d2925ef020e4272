-- ===== src/Examples/Layouts.antt =====
-- The breadth-first layout of concrete permutations.
use ferratomic.Prelude.{ℕ, ◌+◌, ◌≡◌, refl, compare, Ordering, List, [], ◌∷◌, length, get_or, arith}
use ferratomic.Positional.Eytzinger.{
  sentinel, fill_node, fill_bfs, layout_permutation, layout_to_sorted, layout_search, search_loop,
  visit, found,
}
use ferratomic.Positional.EytzingerLayout.{layout_to_sorted-layout_permutation}
use ferratomic.Clock.TxId.{node_ord, tx_cmp}
use ferratomic.Prelude.Order.{list_cmp}
use ferratomic.Positional.Permutation.{indices, insert_position, sort_positions, build_permutation}
use ferratomic.Positional.PermutationSearch.{FindsKey}
use ferratomic.Positional.Keys.Aevt
use ferratomic.Positional.Keys.Vaet
use ferratomic.Positional.Keys.Avet
use ferratomic.Positional.Keys.Aevt.{aevt_ord}
use ferratomic.Positional.Keys.Vaet.{vaet_ord}
use ferratomic.Positional.Keys.Avet.{avet_ord}
use ferratomic.Positional.Gets.{aevt_get, vaet_get, avet_get}
use ferratomic.Positional.GetsFound.{index_gets}
use ferratomic.Examples.Lattices.{value_order}
use ferratomic.Examples.Selections.{fact, ours}

-- The positions of `canonical` by ascending element.
abbrev canonical : List ℕ
canonical = 10 ∷ 30 ∷ 20 ∷ []

abbrev permutation : List ℕ
permutation = 0 ∷ 2 ∷ 1 ∷ []

abbrev against_twenty : ℕ → Ordering
against_twenty d = compare d 20

laid_out : layout_permutation permutation ≡ sentinel ∷ 2 ∷ 0 ∷ 1 ∷ []
unfolding layout_permutation fill_bfs fill_node
laid_out = refl

twenty_found : layout_search canonical against_twenty (sentinel ∷ 2 ∷ 0 ∷ 1 ∷ []) ≡ found 20
unfolding layout_search search_loop visit
twenty_found = refl

layout_to_sorted-layout_permutation_example :
    (length (layout_permutation permutation) ≡ length permutation + 1)
    × (get_or (layout_permutation permutation) 0 0 ≡ sentinel)
    × (layout_to_sorted (layout_permutation permutation) ≡ permutation)
layout_to_sorted-layout_permutation_example = layout_to_sorted-layout_permutation permutation

-- Both datoms have one attribute, one entity and one transaction.
aevt_found :
    aevt_get value_order ours (Aevt.from_datom (fact (0x62 ∷ []))) ≡ found (fact (0x62 ∷ []))
unfolding layout_search search_loop visit layout_permutation fill_bfs fill_node build_permutation
    sort_positions insert_position indices node_ord list_cmp tx_cmp
aevt_found = refl

index_gets_example :
    FindsKey
      (aevt_ord value_order)
      Aevt.from_datom
      ours
      (Aevt.from_datom (fact (0x61 ∷ [])))
      (aevt_get value_order ours (Aevt.from_datom (fact (0x61 ∷ []))))
    × FindsKey
        (vaet_ord value_order)
        Vaet.from_datom
        ours
        (Vaet.from_datom (fact (0x62 ∷ [])))
        (vaet_get value_order ours (Vaet.from_datom (fact (0x62 ∷ []))))
    × FindsKey
        (avet_ord value_order)
        Avet.from_datom
        ours
        (Avet.from_datom (fact (0x63 ∷ [])))
        (avet_get value_order ours (Avet.from_datom (fact (0x63 ∷ []))))
index_gets_example =
    index_gets value_order ours (omega arith) (Aevt.from_datom (fact (0x61 ∷ [])))
      (Vaet.from_datom (fact (0x62 ∷ []))) (Avet.from_datom (fact (0x63 ∷ [])))
