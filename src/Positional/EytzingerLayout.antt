-- ===== src/Positional/EytzingerLayout.antt =====
-- The breadth-first layout keeps the permutation (INV-FERR-071).
use ferratomic.Prelude.{
  ℕ, zero, suc, ◌+◌, ◌*◌, ◌≤◌, ◌<◌, ◌≡◌, refl, sym, ap, ◌∙◌, List, [], ◌∷◌, ◌++◌, map, append_assoc,
  append-nil, length, get_or, take, replicate, length-replicate, take_all, arith,
}
use native.Mathlib.Decide.{dec_lt}
use ferratomic.Positional.Eytzinger.{
  sentinel, Filling, layout_permutation, inorder_collect, layout_to_sorted,
}
use ferratomic.Positional.EytzingerTree.{nodes, nodes_none, nodes_some}
use ferratomic.Positional.EytzingerNodes.{
  all_nodes, nodes_below, length-all_nodes, all_nodes-IsDistinct, count-all_nodes_zero,
}
use ferratomic.Positional.EytzingerFill.{
  fill_nodes, length-fill_nodes, fill_bfs-nodes, nodes-zero, get-fill_nodes, map-fill_nodes,
}

collect_none :
    (fuel : ℕ) (bfs out : List ℕ) (node : ℕ)
    → length bfs ≤ node
    → inorder_collect fuel bfs out node ≡ out
unfolding inorder_collect
collect_none zero bfs out node h = refl
collect_none (suc fuel) bfs out node h = ground arith

collect_some :
    (fuel : ℕ) (bfs out : List ℕ) (node : ℕ)
    → node < length bfs
    → inorder_collect (suc fuel) bfs out node
      ≡ inorder_collect fuel bfs
          (inorder_collect fuel bfs out (2 * node) ++ (get_or bfs node sentinel ∷ []))
          (2 * node + 1)
unfolding inorder_collect
collect_some fuel bfs out node h = ground arith

collect_zero : (bfs out : List ℕ) (node : ℕ) → inorder_collect zero bfs out node ≡ out
unfolding inorder_collect
collect_zero bfs out node = refl

pub map-append : (f : ℕ → ℕ) (l r : List ℕ) → map f (l ++ r) ≡ map f l ++ map f r
map-append f [] r = refl
map-append f (x ∷ l) r = ap (λ t. f x ∷ t) (map-append f l r)

collect_nil : (f : ℕ → ℕ) (out l : List ℕ) → l ≡ [] → out ≡ out ++ map f l
collect_nil f out l h = rw h (sym (append-nil out))

-- The collection pushes what stands at the nodes of the subtree, in order.
inorder_collect-nodes :
    (fuel : ℕ) (bfs out : List ℕ) (node : ℕ)
    → inorder_collect fuel bfs out node
      ≡ out ++ map (λ x. get_or bfs x sentinel) (nodes fuel (length bfs) node)
inorder_collect-nodes zero bfs out node =
    collect_zero bfs out node ∙ collect_nil _ out _ (nodes-zero (length bfs) node)
inorder_collect-nodes (suc fuel) bfs out node = elim (dec_lt node (length bfs)) [
  | no n ↦
      collect_none (suc fuel) bfs out node (omega arith)
      ∙ collect_nil _ out _ (nodes_none (suc fuel) (length bfs) node (omega arith))
  | yes h ↦
      let at : ℕ → ℕ = λ x. get_or bfs x sentinel in
      let l = nodes fuel (length bfs) (2 * node) in
      let r = nodes fuel (length bfs) (2 * node + 1) in
      collect_some fuel bfs out node h
      ∙ ap (λ t. inorder_collect fuel bfs (t ++ (at node ∷ [])) (2 * node + 1))
          (inorder_collect-nodes fuel bfs out (2 * node))
      ∙ inorder_collect-nodes fuel bfs ((out ++ map at l) ++ (at node ∷ [])) (2 * node + 1)
      ∙ append_assoc (out ++ map at l) (at node ∷ []) (map at r)
      ∙ append_assoc out (map at l) (at node ∷ map at r)
      ∙ ap (λ t. out ++ t) (sym (map-append at l (node ∷ r)))
      ∙ ap (λ t. out ++ map at t) (sym (nodes_some fuel (length bfs) node h))
]

-- `bfs` and `src` before the recursion
abbrev unfilled : List ℕ → Filling
unfilled sorted = record { bfs = replicate (length sorted + 1) sentinel; src = 0 }

length-unfilled : (sorted : List ℕ) → length (unfilled sorted).bfs ≡ suc (length sorted)
length-unfilled sorted = omega (arith, length-replicate {A = ℕ} (length sorted + 1) sentinel)

layout_permutation-nodes :
    (sorted : List ℕ)
    → layout_permutation sorted
      ≡ (fill_nodes sorted (all_nodes (suc (length sorted))) (unfilled sorted)).bfs
unfolding layout_permutation
layout_permutation-nodes sorted =
    ap (λ s. s.bfs) (fill_bfs-nodes (length (unfilled sorted).bfs) sorted 1 (unfilled sorted))
    ∙ ap (λ n. (fill_nodes sorted (all_nodes n) (unfilled sorted)).bfs) (length-unfilled sorted)

length-layout_permutation :
    (sorted : List ℕ) → length (layout_permutation sorted) ≡ suc (length sorted)
length-layout_permutation sorted =
    ap length (layout_permutation-nodes sorted)
    ∙ length-fill_nodes sorted (all_nodes (suc (length sorted))) (unfilled sorted)
    ∙ length-unfilled sorted

-- The elements at the nodes of the layout are the permutation.
pub map-layout_permutation :
    (sorted : List ℕ)
    → map
        (λ x. get_or (layout_permutation sorted) x sentinel)
        (all_nodes (length (layout_permutation sorted)))
      ≡ sorted
map-layout_permutation sorted =
    let n = length sorted in
    let size : length (all_nodes (suc n)) ≡ n = length-all_nodes n in
    ap (λ k. map (λ x. get_or (layout_permutation sorted) x sentinel) (all_nodes k))
      (length-layout_permutation sorted)
    ∙ ap (λ b. map (λ x. get_or b x sentinel) (all_nodes (suc n))) (layout_permutation-nodes sorted)
    ∙ map-fill_nodes sorted (all_nodes (suc n)) (unfilled sorted) (all_nodes-IsDistinct (suc n))
        (rw (length-unfilled sorted) (nodes_below (suc n) (suc n) 1)) (omega (arith, size))
    ∙ ap (λ k. take k sorted) size
    ∙ take_all n sorted (omega arith)

get_or_inside : (l : List ℕ) (i a b : ℕ) → i < length l → get_or l i a ≡ get_or l i b
get_or_inside [] i a b h = absurd (omega arith)
get_or_inside (x ∷ l) zero a b h = refl
get_or_inside (x ∷ l) (suc i) a b h = get_or_inside l i a b (omega arith)

get_or-replicate : (n a : ℕ) → get_or (replicate n a) 0 a ≡ a
get_or-replicate zero a = refl
get_or-replicate (suc n) a = refl

first_sentinel : (sorted : List ℕ) → get_or (layout_permutation sorted) 0 0 ≡ sentinel
first_sentinel sorted =
    let n = length sorted in
    get_or_inside (layout_permutation sorted) 0 0 sentinel
      (omega (arith, length-layout_permutation sorted))
    ∙ ap (λ b. get_or b 0 sentinel) (layout_permutation-nodes sorted)
    ∙ get-fill_nodes sorted (all_nodes (suc n)) (unfilled sorted) 0
        (count-all_nodes_zero (suc n) (omega arith)) (omega (arith, length-all_nodes n))
    ∙ get_or-replicate (n + 1) sentinel

-- The layout of a permutation has its length and one more, begins with the sentinel, and gives the
-- permutation back: the recursion fills and reads every node.
pub layout_to_sorted-layout_permutation :
    (sorted : List ℕ)
    → (length (layout_permutation sorted) ≡ length sorted + 1)
      × (get_or (layout_permutation sorted) 0 0 ≡ sentinel)
      × (layout_to_sorted (layout_permutation sorted) ≡ sorted)
unfolding layout_to_sorted
layout_to_sorted-layout_permutation sorted = (
  omega (arith, length-layout_permutation sorted),
  first_sentinel sorted,
  inorder_collect-nodes (length (layout_permutation sorted)) (layout_permutation sorted) [] 1
      ∙ map-layout_permutation sorted,
)
