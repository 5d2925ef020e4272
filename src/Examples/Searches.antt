-- ===== src/Examples/Searches.antt =====
-- Interpolation search in a concrete array.
use ferratomic.Prelude.{
  ℕ, zero, suc, ◌≡◌, refl, sym, ap, some, [], ◌∷◌, length, replicate, get_elem?, arith,
}
use ferratomic.Prelude.Order.{list_cmp}
use ferratomic.Clock.TxId.{node_ord, tx_cmp}
use ferratomic.Datom.Types.{Datom}
use ferratomic.Positional.Eytzinger.{found}
use ferratomic.Positional.Interpolation.{
  EavtKey, entity_u64, estimate, cmp_datom, probe, turn, interpolate, interpolation_search,
}
use ferratomic.Positional.InterpolationLaws.{
  IsAscending, PrefixAscending, FindsBetween, level, interpolation_search-FindsBetween,
}
use ferratomic.Examples.Lattices.{value_order}
use ferratomic.Examples.Selections.{fact, ours}

-- The key of a datom
abbrev key_of : Datom → EavtKey
key_of d = record {
  entity = d.entity;
  attribute = d.attribute;
  value = d.value;
  tx = d.tx;
  op = d.op;
}

abbrev second_key : EavtKey
second_key = key_of (fact (0x62 ∷ []))

second_found : interpolation_search value_order ours second_key ≡ found (fact (0x62 ∷ []))
unfolding interpolation_search interpolate turn probe estimate entity_u64 cmp_datom node_ord
    list_cmp tx_cmp
second_found = refl

first_level : level value_order ours second_key 0 ≡ 0
unfolding cmp_datom node_ord list_cmp tx_cmp
first_level = refl

second_level : level value_order ours second_key 1 ≡ 1
unfolding cmp_datom node_ord list_cmp tx_cmp
second_level = refl

ours-IsAscending : IsAscending value_order ours second_key
ours-IsAscending zero j h inside = omega (arith, first_level)
ours-IsAscending (suc zero) zero h inside = absurd (omega arith)
ours-IsAscending (suc zero) (suc zero) h inside = omega arith
ours-IsAscending (suc zero) (suc (suc j)) h inside = absurd (omega arith)
ours-IsAscending (suc (suc i)) j h inside = absurd (omega arith)

same_entity : (i : ℕ) (d : Datom) → get_elem? ours i ≡ some d → d.entity ≡ replicate 32 7
same_entity zero d h = let same : fact (0x61 ∷ []) ≡ d = cc in sym (ap (λ x. x.entity) same)
same_entity (suc zero) d h = let same : fact (0x62 ∷ []) ≡ d = cc in sym (ap (λ x. x.entity) same)
same_entity (suc (suc i)) d h = cc

ours-PrefixAscending : PrefixAscending value_order ours second_key
ours-PrefixAscending i j d e h k l =
    omega (arith, ap entity_u64 (same_entity i d k), ap entity_u64 (same_entity j e l))

interpolation_search-FindsBetween_example :
    FindsBetween value_order ours second_key 0
      (length ours)
      (interpolation_search value_order ours second_key)
interpolation_search-FindsBetween_example =
    interpolation_search-FindsBetween value_order ours second_key ours-IsAscending
      ours-PrefixAscending
