-- ===== src/Positional/EytzingerNodes.antt =====
-- Every index from 1 on is a node of the implicit tree, once (perm.rs).
use ferratomic.Prelude.{
  ℕ, zero, suc, ◌+◌, ◌*◌, ◌≤◌, ◌<◌, ◌≡◌, refl, sym, ap, ◌∙◌, List, [], ◌∷◌, length, All, All-append,
  arith,
}
use native.Mathlib.Decide.{dec_lt}
use ferratomic.Positional.EytzingerTree.{
  nodes, count, is_at, is_at_self, is_at_ne, under_small, under_root, nodes_none, nodes_some,
  count-nodes,
}

pub nodes_below : (fuel len node : ℕ) → All (λ x. x < len) (nodes fuel len node)
unfolding nodes
nodes_below zero len node = tt
nodes_below (suc fuel) len node = elim (dec_lt node len) [
  | yes h ↦ rw (nodes_some fuel len node h) (
      All-append (λ x. x < len) (nodes fuel len (2 * node)) _ (nodes_below fuel len (2 * node))
        (h, nodes_below fuel len (2 * node + 1)))
  | no n ↦ rw (nodes_none (suc fuel) len node (omega arith)) tt
]

-- The nodes of the whole tree.
abbrev pub all_nodes : ℕ → List ℕ
all_nodes len = nodes len len 1

pub count-all_nodes : (len m : ℕ) → 1 ≤ m → m < len → count m (all_nodes len) ≡ 1
count-all_nodes len m one h =
    count-nodes (suc len) len len 1 m (omega arith) (omega arith) h (omega arith)
    ∙ under_root (suc len) m one (omega arith)

pub count-all_nodes_zero : (len : ℕ) → 0 < len → count 0 (all_nodes len) ≡ 0
count-all_nodes_zero len h =
    count-nodes (suc len) len len 1 0 (omega arith) (omega arith) h (omega arith)
    ∙ under_small (suc len) 0 1 (omega arith)

-- How many elements of a list are less than `k`, counted by their values.
abbrev total : ℕ → List ℕ → ℕ
total zero l = 0
total (suc k) l = count k l + total k l

total_nil : (k : ℕ) → total k [] ≡ 0
total_nil zero = refl
total_nil (suc k) = omega (arith, total_nil k)

total_above : (k x : ℕ) (l : List ℕ) → k ≤ x → total k (x ∷ l) ≡ total k l
total_above zero x l h = refl
total_above (suc k) x l h =
    omega (arith, total_above k x l (omega arith), is_at_ne k x (λ e. omega arith))

total_cons : (k x : ℕ) (l : List ℕ) → x < k → total k (x ∷ l) ≡ suc (total k l)
total_cons zero x l h = absurd (omega arith)
total_cons (suc k) x l h = elim (dec_lt x k) [
  | yes below ↦ omega (arith, total_cons k x l below, is_at_ne k x (λ e. omega arith))
  | no n ↦
      let same : k ≡ x = omega arith in
      omega (arith, total_above k x l (omega arith), ap (is_at k) (sym same), is_at_self k)
]

total-length : (k : ℕ) (l : List ℕ) → All (λ x. x < k) l → total k l ≡ length l
total-length k [] h = total_nil k
total-length k (x ∷ l) h = total_cons k x l h.0 ∙ ap suc (total-length k l h.1)

-- A list that has each index from 1 on once.
total_ones :
    (k : ℕ) (l : List ℕ)
    → count 0 l ≡ 0
    → ((m : ℕ) → 1 ≤ m → m < suc k → count m l ≡ 1)
    → total (suc k) l ≡ k
total_ones zero l z h = omega (arith, z)
total_ones (suc k) l z h = omega (
  arith,
  total_ones k l z (λ m one below. h m one (omega arith)),
  h (suc k) (omega arith) (omega arith),
)

pub length-all_nodes : (n : ℕ) → length (all_nodes (suc n)) ≡ n
length-all_nodes n =
    sym (total-length (suc n) (all_nodes (suc n)) (nodes_below (suc n) (suc n) 1))
    ∙ total_ones n (all_nodes (suc n)) (count-all_nodes_zero (suc n) (omega arith))
        (count-all_nodes (suc n))

-- No element comes twice.
abbrev pub IsDistinct : List ℕ → Type 0
IsDistinct [] = Unit
IsDistinct (x ∷ l) = (count x l ≡ 0) × IsDistinct l

distinct :
    (k : ℕ) (l : List ℕ) → All (λ x. x < k) l → ((m : ℕ) → m < k → count m l ≤ 1) → IsDistinct l
distinct k [] b h = tt
distinct k (x ∷ l) b h =
    (omega (arith, h x b.0, is_at_self x), distinct k l b.1 (λ m below. omega (arith, h m below)))

once : (len m : ℕ) → m < len → count m (all_nodes len) ≤ 1
once len zero h = omega (arith, count-all_nodes_zero len h)
once len (suc m) h = omega (arith, count-all_nodes len (suc m) (omega arith) h)

pub all_nodes-IsDistinct : (len : ℕ) → IsDistinct (all_nodes len)
all_nodes-IsDistinct len = distinct len (all_nodes len) (nodes_below len len 1) (once len)
