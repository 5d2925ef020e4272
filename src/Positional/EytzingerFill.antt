-- ===== src/Positional/EytzingerFill.antt =====
-- Filling the breadth-first array visits the nodes in order (perm.rs).
use ferratomic.Prelude.{
  ℕ, zero, suc, ◌+◌, ◌*◌, ◌≤◌, ◌<◌, ◌≡◌, ◌≢◌, refl, sym, ap, ◌∙◌, List, [], ◌∷◌, ◌++◌, map, length,
  get_or, set, take, drop, length-set, get_or-set_self, get_or-set_ne, All, arith,
}
use native.Mathlib.Decide.{dec_lt}
use ferratomic.Positional.Eytzinger.{sentinel, Filling, fill_node, fill_bfs}
use ferratomic.Positional.EytzingerTree.{nodes, nodes_none, nodes_some, count, is_at, is_at_self}
use ferratomic.Positional.EytzingerNodes.{IsDistinct}

-- The nodes are filled one after the other.
unfoldable pub fill_nodes : List ℕ → List ℕ → Filling → Filling
fill_nodes sorted [] s = s
fill_nodes sorted (x ∷ l) s = fill_nodes sorted l (fill_node sorted x s)

fill_nodes-append :
    (sorted l r : List ℕ) (s : Filling)
    → fill_nodes sorted (l ++ r) s ≡ fill_nodes sorted r (fill_nodes sorted l s)
unfolding fill_nodes
fill_nodes-append sorted [] r s = refl
fill_nodes-append sorted (x ∷ l) r s = fill_nodes-append sorted l r (fill_node sorted x s)

fill_node_yes :
    (sorted : List ℕ) (x : ℕ) (s : Filling)
    → s.src < length sorted
    → fill_node sorted x s
      ≡ record { bfs = set s.bfs x (get_or sorted s.src sentinel); src = s.src + 1 }
unfolding fill_node
fill_node_yes sorted x s h = ground arith

fill_node_no :
    (sorted : List ℕ) (x : ℕ) (s : Filling) → length sorted ≤ s.src → fill_node sorted x s ≡ s
unfolding fill_node
fill_node_no sorted x s h = ground arith

length-fill_node :
    (sorted : List ℕ) (x : ℕ) (s : Filling) → length (fill_node sorted x s).bfs ≡ length s.bfs
length-fill_node sorted x s = elim (dec_lt s.src (length sorted)) [
  | yes h ↦ rw (fill_node_yes sorted x s h) (length-set s.bfs x (get_or sorted s.src sentinel))
  | no n ↦ rw (fill_node_no sorted x s (omega arith)) refl
]

pub length-fill_nodes :
    (sorted l : List ℕ) (s : Filling) → length (fill_nodes sorted l s).bfs ≡ length s.bfs
unfolding fill_nodes
length-fill_nodes sorted [] s = refl
length-fill_nodes sorted (x ∷ l) s =
    length-fill_nodes sorted l (fill_node sorted x s) ∙ length-fill_node sorted x s

fill_bfs-zero : (sorted : List ℕ) (node : ℕ) (s : Filling) → fill_bfs zero sorted node s ≡ s
unfolding fill_bfs
fill_bfs-zero sorted node s = refl

pub nodes-zero : (len node : ℕ) → nodes zero len node ≡ []
unfolding nodes
nodes-zero len node = refl

fill_bfs_none :
    (fuel : ℕ) (sorted : List ℕ) (node : ℕ) (s : Filling)
    → length s.bfs ≤ node
    → fill_bfs fuel sorted node s ≡ s
unfolding fill_bfs
fill_bfs_none zero sorted node s h = refl
fill_bfs_none (suc fuel) sorted node s h = ground arith

fill_bfs_some :
    (fuel : ℕ) (sorted : List ℕ) (node : ℕ) (s : Filling)
    → node < length s.bfs
    → fill_bfs (suc fuel) sorted node s
      ≡ fill_bfs fuel sorted
          (2 * node + 1)
          (fill_node sorted node (fill_bfs fuel sorted (2 * node) s))
unfolding fill_bfs
fill_bfs_some fuel sorted node s h = ground arith

fill_nodes_cons :
    (sorted : List ℕ) (x : ℕ) (l : List ℕ) (s : Filling)
    → fill_nodes sorted (x ∷ l) s ≡ fill_nodes sorted l (fill_node sorted x s)
unfolding fill_nodes
fill_nodes_cons sorted x l s = refl

fill_nodes_nil : (sorted l : List ℕ) (s : Filling) → l ≡ [] → s ≡ fill_nodes sorted l s
unfolding fill_nodes
fill_nodes_nil sorted l s h = rw h refl

-- The recursion visits the nodes of the subtree in order.
pub fill_bfs-nodes :
    (fuel : ℕ) (sorted : List ℕ) (node : ℕ) (s : Filling)
    → fill_bfs fuel sorted node s ≡ fill_nodes sorted (nodes fuel (length s.bfs) node) s
fill_bfs-nodes zero sorted node s =
    fill_bfs-zero sorted node s ∙ fill_nodes_nil sorted _ s (nodes-zero (length s.bfs) node)
fill_bfs-nodes (suc fuel) sorted node s = elim (dec_lt node (length s.bfs)) [
  | no n ↦
      fill_bfs_none (suc fuel) sorted node s (omega arith)
      ∙ fill_nodes_nil sorted _ s (nodes_none (suc fuel) (length s.bfs) node (omega arith))
  | yes h ↦
      let len = length s.bfs in
      let l = nodes fuel len (2 * node) in
      let left = fill_nodes sorted l s in
      let root = fill_node sorted node left in
      let same : length root.bfs ≡ len =
        length-fill_node sorted node left ∙ length-fill_nodes sorted l s in
      fill_bfs_some fuel sorted node s h
      ∙ ap (λ t. fill_bfs fuel sorted (2 * node + 1) (fill_node sorted node t))
          (fill_bfs-nodes fuel sorted (2 * node) s)
      ∙ fill_bfs-nodes fuel sorted (2 * node + 1) root
      ∙ ap (λ n. fill_nodes sorted (nodes fuel n (2 * node + 1)) root) same
      ∙ sym (
          ap (λ t. fill_nodes sorted t s) (nodes_some fuel len node h)
          ∙ fill_nodes-append sorted l (node ∷ nodes fuel len (2 * node + 1)) s
          ∙ fill_nodes_cons sorted node (nodes fuel len (2 * node + 1)) left)
]

-- A node that is not filled again keeps its element.
pub get-fill_nodes :
    (sorted l : List ℕ) (s : Filling) (x : ℕ)
    → count x l ≡ 0
    → s.src + length l ≤ length sorted
    → get_or (fill_nodes sorted l s).bfs x sentinel ≡ get_or s.bfs x sentinel
get-fill_nodes sorted [] s x h k =
    ap (λ t. get_or t.bfs x sentinel) (sym (fill_nodes_nil sorted [] s refl))
get-fill_nodes sorted (y ∷ l) s x h k =
    let next = fill_node_yes sorted y s (omega arith) in
    let differ : y ≢ x = λ e. (omega (arith, h, ap (is_at x) e, is_at_self x)) in
    rw (fill_nodes_cons sorted y l s, next)
      (get-fill_nodes sorted l _ x (omega arith) (omega arith)
        ∙ get_or-set_ne s.bfs y x (get_or sorted s.src sentinel) sentinel differ)

take-drop-suc :
    (n i : ℕ) (l : List ℕ)
    → i < length l
    → take (suc n) (drop i l) ≡ get_or l i sentinel ∷ take n (drop (suc i) l)
take-drop-suc n i [] h = absurd (omega arith)
take-drop-suc n zero (x ∷ l) h = refl
take-drop-suc n (suc i) (x ∷ l) h = take-drop-suc n i l (omega arith)

-- Distinct nodes read back what they were filled with.
pub map-fill_nodes :
    (sorted l : List ℕ) (s : Filling)
    → IsDistinct l
    → All (λ x. x < length s.bfs) l
    → s.src + length l ≤ length sorted
    → map (λ x. get_or (fill_nodes sorted l s).bfs x sentinel) l
      ≡ take (length l) (drop s.src sorted)
map-fill_nodes sorted [] s d b h = refl
map-fill_nodes sorted (x ∷ l) s d b h =
    let v = get_or sorted s.src sentinel in
    let next : Filling = record { bfs = set s.bfs x v; src = s.src + 1 } in
    let step : fill_nodes sorted (x ∷ l) s ≡ fill_nodes sorted l next =
      fill_nodes_cons sorted x l s
      ∙ ap (fill_nodes sorted l) (fill_node_yes sorted x s (omega arith)) in
    let head : get_or (fill_nodes sorted l next).bfs x sentinel ≡ v =
      get-fill_nodes sorted l next x d.0 (omega arith) ∙ get_or-set_self s.bfs x v sentinel b.0 in
    let tail : map (λ y. get_or (fill_nodes sorted l next).bfs y sentinel) l
        ≡ take (length l) (drop (s.src + 1) sorted) =
      map-fill_nodes sorted l next d.1 (rw (length-set s.bfs x v) b.1) (omega arith) in
    let index : s.src + 1 ≡ suc s.src = omega arith in
    ap (λ t. map (λ y. get_or t.bfs y sentinel) (x ∷ l)) step
    ∙ ap (λ y. y ∷ map (λ y. get_or (fill_nodes sorted l next).bfs y sentinel) l) head
    ∙ ap (λ r. v ∷ r) (tail ∙ ap (λ i. take (length l) (drop i sorted)) index)
    ∙ sym (take-drop-suc (length l) s.src sorted (omega arith))
