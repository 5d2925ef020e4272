-- ===== src/Positional/EytzingerSearch.antt =====
-- Searching the layout finds what stands in the permutation, and ends (INV-FERR-071).
use ferratomic.Prelude.{
  ℕ, zero, suc, ◌+◌, ◌*◌, ◌≤◌, ◌<◌, ◌≡◌, sym, ap, ◌∙◌, subst, List, [], ◌∷◌, ◌++◌, map, Ordering,
  length, get_elem?, get_or, arith,
}
use native.Mathlib.Decide.{dec_lt}
use ferratomic.Positional.Eytzinger.{
  sentinel, layout_permutation, absent, visit, search_loop, layout_search,
}
use ferratomic.Positional.EytzingerTree.{nodes, nodes_none, nodes_some}
use ferratomic.Positional.EytzingerLayout.{
  map-append, map-layout_permutation, layout_to_sorted-layout_permutation,
}
use ferratomic.Positional.EytzingerOrder.{IsOrdered, Finds, Parted, part, visit-Finds}

module _ {A : Type 0} (canonical : List A) (cmp_fn : A → Ordering) where
  search_none :
      (fuel : ℕ) (bfs : List ℕ) (node : ℕ)
      → 1 ≤ node
      → length bfs ≤ node
      → search_loop canonical cmp_fn (suc fuel) bfs node ≡ absent
  unfolding search_loop
  search_none fuel bfs node one h = ground arith

  search_some :
      (fuel : ℕ) (bfs : List ℕ) (node : ℕ)
      → node < length bfs
      → search_loop canonical cmp_fn (suc fuel) bfs node
        ≡ visit canonical cmp_fn
            (get_elem? canonical (get_or bfs node sentinel))
            (search_loop canonical cmp_fn fuel bfs (2 * node + 1))
            (search_loop canonical cmp_fn fuel bfs (2 * node))
  unfolding search_loop
  search_some fuel bfs node h = ground arith

  -- The positions at the nodes of a subtree.
  abbrev positions : ℕ → List ℕ → ℕ → List ℕ
  positions fuel bfs node = map (λ x. get_or bfs x sentinel) (nodes fuel (length bfs) node)

  positions_some :
      (fuel : ℕ) (bfs : List ℕ) (node : ℕ)
      → node < length bfs
      → positions (suc fuel) bfs node
        ≡ positions fuel bfs (2 * node)
          ++ get_or bfs node sentinel ∷ positions fuel bfs (2 * node + 1)
  positions_some fuel bfs node h =
      ap (map (λ x. get_or bfs x sentinel)) (nodes_some fuel (length bfs) node h)
      ∙ map-append (λ x. get_or bfs x sentinel) (nodes fuel (length bfs) (2 * node)) _

  Finds-nothing : (l : List ℕ) → l ≡ [] → Finds canonical cmp_fn l absent
  Finds-nothing [] h = λ p n. absurd n
  Finds-nothing (x ∷ l) h = cc

  ended :
      (fuel : ℕ) (bfs : List ℕ) (node : ℕ)
      → 1 ≤ node
      → length bfs ≤ node
      → Finds canonical cmp_fn
          (positions (suc fuel) bfs node)
          (search_loop canonical cmp_fn (suc fuel) bfs node)
  ended fuel bfs node one h = rw (search_none fuel bfs node one h) (
      Finds-nothing (positions (suc fuel) bfs node)
        (ap (map (λ x. get_or bfs x sentinel)) (nodes_none (suc fuel) (length bfs) node h)))

  search_loop-Finds :
      (fuel : ℕ) (bfs : List ℕ) (node : ℕ)
      → 1 ≤ node
      → length bfs < suc fuel + node
      → IsOrdered canonical cmp_fn (positions (suc fuel) bfs node)
      → Finds canonical cmp_fn
          (positions (suc fuel) bfs node)
          (search_loop canonical cmp_fn (suc fuel) bfs node)
  search_loop-Finds zero bfs node one enough o = ended zero bfs node one (omega arith)
  search_loop-Finds (suc fuel) bfs node one enough o = elim (dec_lt node (length bfs)) [
    | no n ↦ ended (suc fuel) bfs node one (omega arith)
    | yes h ↦
        let l = positions (suc fuel) bfs (2 * node) in
        let r = positions (suc fuel) bfs (2 * node + 1) in
        let split = positions_some (suc fuel) bfs node h in
        let parted : Parted canonical cmp_fn l (get_or bfs node sentinel) r =
          part canonical cmp_fn l (get_or bfs node sentinel) r
            (subst (IsOrdered canonical cmp_fn) split o) in
        rw (search_some (suc fuel) bfs node h) (
          subst
            (λ p. Finds canonical cmp_fn p (
              visit canonical cmp_fn (get_elem? canonical (get_or bfs node sentinel))
                (search_loop canonical cmp_fn (suc fuel) bfs (2 * node + 1))
                (search_loop canonical cmp_fn (suc fuel) bfs (2 * node))))
            (sym split)
            (visit-Finds canonical cmp_fn l (get_or bfs node sentinel) r _ _ parted
              (search_loop-Finds fuel bfs (2 * node + 1) (omega arith) (omega arith) parted.right)
              (search_loop-Finds fuel bfs (2 * node) (omega arith) (omega arith) parted.left)))
  ]

  search_empty : (bfs : List ℕ) → length bfs ≡ 1 → layout_search canonical cmp_fn bfs ≡ absent
  unfolding layout_search
  search_empty bfs h = ground arith

  search_full :
      (bfs : List ℕ) (n : ℕ)
      → length bfs ≡ suc (suc n)
      → layout_search canonical cmp_fn bfs ≡ search_loop canonical cmp_fn (length bfs) bfs 1
  unfolding layout_search
  search_full bfs n h = ground arith

  -- When the datoms at the positions of a permutation compare in ascending order, and every position
  -- is one of the array, searching the layout of the permutation ends within the fuel and without an
  -- index out of bounds: it returns a datom of the permutation that compares equal, or reports that
  -- there is none.
  pub layout_search-Finds :
      (sorted : List ℕ)
      → IsOrdered canonical cmp_fn sorted
      → Finds canonical cmp_fn sorted (layout_search canonical cmp_fn (layout_permutation sorted))
  layout_search-Finds [] o =
      rw
        (search_empty (layout_permutation [])
          (omega (arith, (layout_to_sorted-layout_permutation []).0)))
        (λ p n. absurd n)
  layout_search-Finds (x ∷ l) o =
      let sorted : List ℕ = x ∷ l in
      let bfs = layout_permutation sorted in
      let n = length l in
      let size = (layout_to_sorted-layout_permutation sorted).0 in
      let len : length bfs ≡ suc (suc n) = omega (arith, size) in
      let whole : positions (suc (suc n)) bfs 1 ≡ sorted =
        ap (λ k. map (λ y. get_or bfs y sentinel) (nodes k (length bfs) 1)) (sym len)
        ∙ map-layout_permutation sorted in
      let all : Finds canonical cmp_fn sorted (search_loop canonical cmp_fn (suc (suc n)) bfs 1) =
        subst (λ p. Finds canonical cmp_fn p (search_loop canonical cmp_fn (suc (suc n)) bfs 1))
          whole
          (search_loop-Finds (suc n) bfs 1 (omega arith) (omega arith)
            (subst (IsOrdered canonical cmp_fn) (sym whole) o)) in
      subst (Finds canonical cmp_fn sorted)
        (sym (search_full bfs n len ∙ ap (λ k. search_loop canonical cmp_fn k bfs 1) len)) all
