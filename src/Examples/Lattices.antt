-- ===== src/Examples/Lattices.antt =====
-- The LIVE lattice at concrete datoms.
use ferratomic.Prelude.{
  ◌≡◌, refl, sym, ap, ◌∙◌, inl, inr, Bool, true, false, some, [], ◌∷◌, Ordering,
}
use ferratomic.Prelude.Order.{Ord, nat_ord, pair_ord, key_ord, list_cmp}
use ferratomic.Clock.TxId.{node_ord, tx_cmp}
use ferratomic.Datom.Types.{assert, retract, Value, Datom}
use ferratomic.Positional.Live.{Group, live_positions_kernel}
use ferratomic.Positional.Merge.{merge_sort_dedup}
use ferratomic.Store.Causal.{
  Key, LiveMaps, key, event, build_live_causal, merge_causal, derive_live_set, live_apply_all,
  was_live,
}
use ferratomic.Store.Latest.{In, Either, IsLatest}
use ferratomic.Store.Replay.{live_lattice-IsLatest}
use ferratomic.Store.Homomorphism.{OneOp, merge_causal_homomorphism}
use ferratomic.Store.LiveSet.{is_live}
use ferratomic.Store.LiveSync.{live_set_follows_lattice}
use ferratomic.Store.Ties.{asserted_at, retracted_at, tie_divides_views}
use ferratomic.Store.Resolve.{live_resolve, IsLastWriter, live_resolve-IsLastWriter}
use ferratomic.Examples.Maps.{sorted_map, sorted_set}
use ferratomic.Examples.Selections.{
  value_key, value_of_key, value_of_key-value_key, datom_ord, ours, theirs, fact,
}

abbrev pub value_order : Ord Value
value_order =
    key_ord (pair_ord nat_ord node_ord) value_key
      (λ a b h. sym (value_of_key-value_key a) ∙ ap value_of_key h ∙ value_of_key-value_key b)

abbrev pub key_order : Ord Key
key_order = pair_ord node_ord node_ord

abbrev pub maps : LiveMaps
maps = record {
  key_order = key_order;
  value_order = value_order;
  entries = sorted_map value_order;
  causal = sorted_map key_order;
  values = sorted_set value_order;
  live = sorted_map key_order;
}

abbrev pub doc_fact : Datom
doc_fact = fact (0x61 ∷ [])

ours-theirs : merge_sort_dedup datom_ord ours theirs ≡ ours
unfolding merge_sort_dedup node_ord list_cmp tx_cmp
ours-theirs = refl

all_assert : (x : Datom) → In ours x → x.op ≡ assert
all_assert x (inl h) = ap (λ y. y.op) h
all_assert x (inr (inl h)) = ap (λ y. y.op) h
all_assert x (inr (inr n)) = absurd n

ours-OneOp : OneOp (In (merge_sort_dedup datom_ord ours theirs))
ours-OneOp = rw ours-theirs (λ x y h k i j l. all_assert x h ∙ sym (all_assert y k))

merge_causal_homomorphism_example :
    event maps
      (key doc_fact)
      doc_fact.value
      (merge_causal maps (build_live_causal maps ours) (build_live_causal maps theirs))
    ≡ event maps
        (key doc_fact)
        doc_fact.value
        (build_live_causal maps (merge_sort_dedup datom_ord ours theirs))
merge_causal_homomorphism_example =
    merge_causal_homomorphism maps datom_ord ours theirs ours-OneOp (key doc_fact) doc_fact.value

live_lattice-IsLatest_example :
    IsLatest
      (In ours)
      (key doc_fact)
      doc_fact.value
      (event maps (key doc_fact) doc_fact.value (build_live_causal maps ours))
    × IsLatest (Either (In ours) (In (retracted_at doc_fact ∷ []))) (key doc_fact) doc_fact.value (
        event maps
          (key doc_fact)
          doc_fact.value
          (live_apply_all maps
            (retracted_at doc_fact ∷ [])
            (build_live_causal maps ours, maps.live.empty)).0)
live_lattice-IsLatest_example =
    live_lattice-IsLatest maps ours (retracted_at doc_fact ∷ []) maps.live.empty (key doc_fact)
      doc_fact.value

live_set_follows_lattice_example :
    (is_live maps (key doc_fact) doc_fact.value (derive_live_set maps (build_live_causal maps ours))
      ≡ was_live maps (event maps (key doc_fact) doc_fact.value (build_live_causal maps ours)))
    × (is_live maps
          (key doc_fact)
          doc_fact.value
          (live_apply_all maps
            (retracted_at doc_fact ∷ [])
            (build_live_causal maps ours, derive_live_set maps (build_live_causal maps ours))).1
        ≡ was_live maps (
            event maps
              (key doc_fact)
              doc_fact.value
              (live_apply_all maps (retracted_at doc_fact ∷ []) (
                build_live_causal maps ours,
                derive_live_set maps (build_live_causal maps ours),
              )).0))
live_set_follows_lattice_example =
    live_set_follows_lattice maps (build_live_causal maps ours) (retracted_at doc_fact ∷ [])
      (key doc_fact) doc_fact.value

abbrev pub group_order : Ord Group
group_order = pair_ord key_order value_order

abbrev pub is_eq : Ordering → Bool
is_eq Ordering.eq = true
is_eq _ = false

abbrev pub same_group : Group → Group → Bool
same_group g h = is_eq (group_order.cmp g h)

asserted_first : datom_ord.cmp (asserted_at doc_fact) (retracted_at doc_fact) ≡ Ordering.lt
unfolding node_ord list_cmp tx_cmp
asserted_first = refl

tie_divides_views_example :
    (event maps (key doc_fact) doc_fact.value (
        build_live_causal maps
          (merge_sort_dedup datom_ord (asserted_at doc_fact ∷ []) (retracted_at doc_fact ∷ [])))
      ≡ some (doc_fact.tx, assert))
    × (event maps (key doc_fact) doc_fact.value (
          merge_causal maps
            (build_live_causal maps (asserted_at doc_fact ∷ []))
            (build_live_causal maps (retracted_at doc_fact ∷ [])))
        ≡ some (doc_fact.tx, retract))
    × (event maps
          (key doc_fact)
          doc_fact.value
          (live_apply_all maps
            (retracted_at doc_fact ∷ asserted_at doc_fact ∷ [])
            (maps.causal.empty, maps.live.empty)).0
        ≡ some (doc_fact.tx, retract))
    × (live_positions_kernel same_group
          (merge_sort_dedup datom_ord (asserted_at doc_fact ∷ []) (retracted_at doc_fact ∷ []))
        ≡ [])
tie_divides_views_example =
    tie_divides_views maps datom_ord same_group doc_fact maps.live.empty
      (λ g. ap is_eq (group_order.cmp_refl g)) asserted_first

live_resolve-IsLastWriter_example :
    IsLastWriter maps
      (key doc_fact)
      (build_live_causal maps ours)
      (live_resolve maps (key doc_fact) (build_live_causal maps ours))
live_resolve-IsLastWriter_example =
    live_resolve-IsLastWriter maps (key doc_fact) (build_live_causal maps ours)
