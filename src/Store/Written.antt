-- ===== src/Store/Written.antt =====
-- What storing datoms does to a store, whatever its representation (apply.rs, INV-FERR-072).
use ferratomic.Prelude.{◌≡◌, refl, sym, ap, ◌∙◌, List, [], ◌∷◌, ◌++◌}
use ferratomic.Prelude.TreeMap
use ferratomic.Prelude.TreeMap.{TreeMap}
use ferratomic.Datom.Types.{Datom}
use ferratomic.Positional.MergeLaws.{entries, IsCanonical}
use ferratomic.Positional.Merge.{merge_sort_dedup}
use ferratomic.Store.Causal.{LiveCausal, LiveSet, live_apply_all}
use ferratomic.Store.Merge.{
  Parts, StoreRepr, positional, ord_map, from_sorted_canonical, from_datoms, Store, repr_datoms,
  datoms,
}
use ferratomic.Store.Apply.{
  elements, set_insert, collect, promoted, promote, demote, live_applied, add_datom, add_datoms,
  insert, insert_all, splice, write,
}
use ferratomic.Store.Sets.{union, union-IsCanonical, union-union, union_empty, union_one}
use ferratomic.Store.Sorting.{dedup-sort_unstable}

module _ (p : Parts) where
  entries-elements : (m : TreeMap Datom (Unit {0})) → entries p.datom_order (elements p m) ≡ m
  entries-elements [] = refl
  entries-elements ((d, u) ∷ m) = ap (λ r. (d, tt) ∷ r) (entries-elements m)

  set_insert-eq-union :
      (d : Datom) (set : List Datom)
      → IsCanonical p.datom_order set
      → set_insert p d set ≡ union p.datom_order set (d ∷ [])
  unfolding set_insert
  set_insert-eq-union d set h =
      let inserted : TreeMap Datom (Unit {0}) =
        TreeMap.insert p.datom_order d tt (entries p.datom_order set) in
      let back = entries-elements inserted in
      sym (
        union_one p.datom_order d set (set_insert p d set) h
          (rw back (TreeMap.insert-IsSorted p.datom_order d tt (entries p.datom_order set) h))
          (rw back (TreeMap.lookup-insert_self p.datom_order d tt (entries p.datom_order set)))
          (λ i n.
            rw back (TreeMap.lookup-insert_ne p.datom_order i d tt (entries p.datom_order set) n)))

  collect-eq-union :
      (set ds : List Datom)
      → IsCanonical p.datom_order set
      → collect p set ds ≡ union p.datom_order set ds
  unfolding collect
  collect-eq-union set [] h = sym (union_empty p.datom_order set h)
  collect-eq-union set (d ∷ ds) h =
      let one = set_insert-eq-union d set h in
      rw one (
        collect-eq-union (union p.datom_order set (d ∷ [])) ds
          (union-IsCanonical p.datom_order set (d ∷ []) h)
        ∙ union-union p.datom_order set (d ∷ []) ds h)

  -- The store on its set of datoms
  abbrev pub opened : Store p → Store p
  opened s = record s { repr = ord_map (datoms p s) }

  -- The datoms added to the set, and applied to the LIVE lattice and set in turn
  abbrev pub written : List Datom → Store p → Store p
  written new s = live_applied p new (record s {
    repr = positional (from_sorted_canonical p (union p.datom_order (datoms p s) new));
  })

  live_apply_all-append :
      (a b : List Datom) (state : LiveCausal p.maps × LiveSet p.maps)
      → live_apply_all p.maps (a ++ b) state
        ≡ live_apply_all p.maps b (live_apply_all p.maps a state)
  unfolding live_apply_all
  live_apply_all-append [] b state = refl
  live_apply_all-append (d ∷ a) b state = live_apply_all-append a b _

  pub written-IsCanonical :
      (new : List Datom) (s : Store p)
      → IsCanonical p.datom_order (datoms p s)
      → IsCanonical p.datom_order (datoms p (written new s))
  unfolding from_sorted_canonical
  written-IsCanonical new s h = union-IsCanonical p.datom_order (datoms p s) new h

  pub written-written :
      (a b : List Datom) (s : Store p)
      → IsCanonical p.datom_order (datoms p s)
      → written b (written a s) ≡ written (a ++ b) s
  unfolding from_sorted_canonical
  written-written a b s h =
      let state : LiveCausal p.maps × LiveSet p.maps = (s.live_causal, s.live_set) in
      rw (union-union p.datom_order (datoms p s) a b h) (
        sym (
          ap
            (λ (l : LiveCausal p.maps × LiveSet p.maps). record s {
              repr =
                  positional (from_sorted_canonical p (union p.datom_order (datoms p s) (a ++ b)));
              live_causal = l.0;
              live_set = l.1;
            })
            (live_apply_all-append a b state)))

  add_datom-opened :
      (d : Datom) (s : Store p)
      → IsCanonical p.datom_order (datoms p s)
      → add_datom p d (opened s) ≡ opened (written (d ∷ []) s)
  unfolding add_datom from_sorted_canonical
  add_datom-opened d s h = rw (set_insert-eq-union d (datoms p s) h) refl

  opened-written_none :
      (s : Store p) → IsCanonical p.datom_order (datoms p s) → opened (written [] s) ≡ opened s
  unfolding from_sorted_canonical live_apply_all
  opened-written_none s h =
      ap (λ l. record s { repr = ord_map l }) (union_empty p.datom_order (datoms p s) h)

  pub add_datoms-opened :
      (new : List Datom) (s : Store p)
      → IsCanonical p.datom_order (datoms p s)
      → add_datoms p new (opened s) ≡ opened (written new s)
  unfolding add_datoms from_sorted_canonical live_apply_all
  add_datoms-opened [] s h = sym (opened-written_none s h)
  add_datoms-opened (d ∷ new) s h =
      ap (add_datoms p new) (add_datom-opened d s h)
      ∙ add_datoms-opened new (written (d ∷ []) s) (written-IsCanonical (d ∷ []) s h)
      ∙ ap opened (written-written (d ∷ []) new s h)

  insert_all-opened :
      (new : List Datom) (s : Store p)
      → IsCanonical p.datom_order (datoms p s)
      → insert_all p new (opened s) ≡ opened (written new s)
  unfolding insert_all insert promote from_sorted_canonical
  insert_all-opened [] s h = sym (opened-written_none s h)
  insert_all-opened (d ∷ new) s h =
      ap (insert_all p new) (add_datom-opened d s h)
      ∙ insert_all-opened new (written (d ∷ []) s) (written-IsCanonical (d ∷ []) s h)
      ∙ ap opened (written-written (d ∷ []) new s h)

  promoted-eq-ord_map :
      (r : StoreRepr)
      → IsCanonical p.datom_order (repr_datoms p r)
      → promoted p r ≡ ord_map (repr_datoms p r)
  unfolding merge_sort_dedup
  promoted-eq-ord_map (positional ps) h =
      ap ord_map
        (collect-eq-union [] ps.canonical tt ∙ dedup-sort_unstable p.datom_order ps.canonical h)
  promoted-eq-ord_map (ord_map set) h = refl

  pub promote-eq-opened :
      (s : Store p) → IsCanonical p.datom_order (datoms p s) → promote p s ≡ opened s
  unfolding promote
  promote-eq-opened s h = ap (λ r. record s { repr = r }) (promoted-eq-ord_map s.repr h)

  -- Inserting datoms one by one has the set that writing them has.
  pub opened-insert_all :
      (new : List Datom) (s : Store p)
      → IsCanonical p.datom_order (datoms p s)
      → opened (insert_all p new s) ≡ opened (written new s)
  unfolding insert_all insert
  opened-insert_all [] s h = sym (opened-written_none s h)
  opened-insert_all (d ∷ new) s h =
      let first : insert p d s ≡ insert p d (opened s) =
        ap (add_datom p d) (promote-eq-opened s h ∙ sym (promote-eq-opened (opened s) h)) in
      ap (λ t. opened (insert_all p new t)) first ∙ ap opened (insert_all-opened (d ∷ new) s h)

  from_datoms-canonical :
      (l : List Datom) → IsCanonical p.datom_order l → from_datoms p l ≡ from_sorted_canonical p l
  unfolding from_datoms
  from_datoms-canonical l h = ap (from_sorted_canonical p) (dedup-sort_unstable p.datom_order l h)

  -- Demoting the set of a written store gives the written store.
  pub demote-opened-written :
      (new : List Datom) (s : Store p)
      → IsCanonical p.datom_order (datoms p s)
      → demote p (opened (written new s)) ≡ written new s
  unfolding demote from_sorted_canonical
  demote-opened-written new s h =
      let l : List Datom = union p.datom_order (datoms p s) new in
      ap (λ ps. record (written new s) { repr = positional ps })
        (from_datoms-canonical l (union-IsCanonical p.datom_order (datoms p s) new h))

  write_repr :
      (r : StoreRepr) (new : List Datom) (s : Store p)
      → IsCanonical p.datom_order (repr_datoms p r)
      → write p new (record s { repr = r }) ≡ written new (record s { repr = r })
  unfolding write splice
  write_repr (positional ps) new s h = refl
  write_repr (ord_map set) new s h =
      ap (demote p) (add_datoms-opened new (record s { repr = ord_map set }) h)
      ∙ demote-opened-written new (record s { repr = ord_map set }) h

  -- The splice of a positional store and the insertions into a set, then demoted, are the same.
  pub write-eq-written :
      (new : List Datom) (s : Store p)
      → IsCanonical p.datom_order (datoms p s)
      → write p new s ≡ written new s
  write-eq-written new s h = write_repr s.repr new s h
