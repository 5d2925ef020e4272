-- ===== src/Positional/Eytzinger.antt =====
-- The breadth-first layout of a sorted permutation (perm.rs). The recursion over the implicit tree
-- runs on fuel; the length of the array is enough.
use ferratomic.Prelude.{
  ℕ, zero, suc, ◌+◌, ◌-◌, ◌*◌, Option, none, some, List, [], ◌∷◌, ◌++◌, Ordering, leb, ltb, ◌==◌,
  if◌then◌else◌, length, get_elem?, get_or, set, replicate,
}

-- `u32::MAX`
abbrev pub sentinel : ℕ
sentinel = 0xFFFF_FFFF

-- `bfs` and `src`
pub record Filling : Type 0 where
  pub bfs : List ℕ
  pub src : ℕ

-- `fill_bfs` between its two calls
unfoldable pub fill_node : List ℕ → ℕ → Filling → Filling
fill_node sorted node s =
    if ltb s.src (length sorted)
    then record { bfs = set s.bfs node (get_or sorted s.src sentinel); src = s.src + 1 }
    else s

unfoldable pub fill_bfs : ℕ → List ℕ → ℕ → Filling → Filling
fill_bfs zero sorted node s = s
fill_bfs (suc fuel) sorted node s =
    let left = fill_bfs fuel sorted (2 * node) s in
    let root = fill_node sorted node left in
    let right = fill_bfs fuel sorted (2 * node + 1) root in
    if leb (length s.bfs) node then s else right

unfoldable pub layout_permutation : List ℕ → List ℕ
layout_permutation sorted =
    let bfs = replicate (length sorted + 1) sentinel in
    (fill_bfs (length bfs) sorted 1 (record { bfs = bfs; src = 0 })).bfs

unfoldable pub inorder_collect : ℕ → List ℕ → List ℕ → ℕ → List ℕ
inorder_collect zero bfs out node = out
inorder_collect (suc fuel) bfs out node =
    let left = inorder_collect fuel bfs out (2 * node) in
    let root = left ++ (get_or bfs node sentinel ∷ []) in
    let right = inorder_collect fuel bfs root (2 * node + 1) in
    if leb (length bfs) node then out else right

unfoldable pub layout_to_sorted : List ℕ → List ℕ
layout_to_sorted bfs = inorder_collect (length bfs) bfs [] 1

-- How a search ends; an index out of bounds panics.
pub data Search {ℓ} (A : Type ℓ) : Type ℓ where
  found : A → Search A
  absent : Search A
  out_of_bounds out_of_fuel : Search A

module _ {ℓ} {A : Type ℓ} (canonical : List A) (cmp_fn : A → Ordering) where
  -- The body of the loop, from the datom at `bfs_perm[node]`, with what both continuations give
  unfoldable pub visit : Option A → Search A → Search A → Search A
  visit none right left = out_of_bounds
  visit (some d) right left = elim (cmp_fn d) [
    | Ordering.eq ↦ found d
    | Ordering.lt ↦ right
    | Ordering.gt ↦ left
  ]

  unfoldable pub search_loop : ℕ → List ℕ → ℕ → Search A
  search_loop zero bfs_perm node = out_of_fuel
  search_loop (suc fuel) bfs_perm node =
      let right = search_loop fuel bfs_perm (2 * node + 1) in
      let left = search_loop fuel bfs_perm (2 * node) in
      if leb node (length bfs_perm - 1)
      then visit (get_elem? canonical (get_or bfs_perm node sentinel)) right left
      else absent

  unfoldable pub layout_search : List ℕ → Search A
  layout_search bfs_perm =
      if length bfs_perm - 1 == 0 then absent else search_loop (length bfs_perm) bfs_perm 1
