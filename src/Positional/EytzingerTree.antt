-- ===== src/Positional/EytzingerTree.antt =====
-- The nodes of the implicit tree, and which of them are below a node (perm.rs).
use ferratomic.Prelude.{
  ℕ, zero, suc, ◌+◌, ◌*◌, ◌/◌, ◌≤◌, ◌<◌, ◌≡◌, refl, sym, ap, ◌∙◌, List, [], ◌∷◌, ◌++◌, leb, ltb,
  ◌==◌, if◌then◌else◌, arith,
}
use native.Mathlib.Decide.{dec_lt}

-- The indices below `len` of the subtree at `node`, in the order of an in-order traversal.
unfoldable pub nodes : ℕ → ℕ → ℕ → List ℕ
nodes zero len node = []
nodes (suc fuel) len node =
    let left = nodes fuel len (2 * node) in
    let right = nodes fuel len (2 * node + 1) in if leb len node then [] else left ++ node ∷ right

abbrev pub is_at : ℕ → ℕ → ℕ
is_at m x = if m == x then 1 else 0

-- How often a number stands in a list.
abbrev pub count : ℕ → List ℕ → ℕ
count m [] = 0
count m (x ∷ l) = is_at m x + count m l

count-append : (m : ℕ) (l r : List ℕ) → count m (l ++ r) ≡ count m l + count m r
count-append m [] r = omega arith
count-append m (x ∷ l) r = omega (arith, count-append m l r)

-- Whether `m` is `x` or below it in the tree: halving `m` meets `x`.
unfoldable pub under : ℕ → ℕ → ℕ → ℕ
under zero m x = 0
under (suc fuel) m x =
    let above = under fuel (m / 2) x in if ltb m x then 0 else if m == x then 1 else above

pub under_small : (fuel m x : ℕ) → m < x → under fuel m x ≡ 0
unfolding under
under_small zero m x h = refl
under_small (suc fuel) m x h = ground arith

under_self : (fuel x : ℕ) → under (suc fuel) x x ≡ 1
unfolding under
under_self fuel x = ground arith

under_above : (fuel m x : ℕ) → x < m → under (suc fuel) m x ≡ under fuel (m / 2) x
unfolding under
under_above fuel m x h = ground arith

pub is_at_self : (x : ℕ) → is_at x x ≡ 1
is_at_self x = ground arith

pub is_at_ne : (m x : ℕ) → ¬ (m ≡ x) → is_at m x ≡ 0
is_at_ne m x h = ground arith

half_below : (m x : ℕ) → m < 2 * x → m / 2 < x
half_below m x h = omega arith

half_double : (x : ℕ) → (2 * x) / 2 ≡ x
half_double x = omega arith

half_double_suc : (x : ℕ) → (2 * x + 1) / 2 ≡ x
half_double_suc x = omega arith

-- The cases of `m` against `x` and its children.
split_below :
    (fuel m x : ℕ)
    → m < x
    → under fuel m x ≡ is_at m x + (under fuel m (2 * x) + under fuel m (2 * x + 1))
split_below fuel m x h = omega (
  arith,
  under_small fuel m x h,
  under_small fuel m (2 * x) (omega arith),
  under_small fuel m (2 * x + 1) (omega arith),
  is_at_ne m x (λ e. omega arith),
)

split_self :
    (fuel x : ℕ)
    → 1 ≤ x
    → under (suc fuel) x x
      ≡ is_at x x + (under (suc fuel) x (2 * x) + under (suc fuel) x (2 * x + 1))
split_self fuel x h = omega (
  arith,
  under_self fuel x,
  under_small (suc fuel) x (2 * x) (omega arith),
  under_small (suc fuel) x (2 * x + 1) (omega arith),
  is_at_self x,
)

split_between :
    (fuel m x : ℕ)
    → x < m
    → m < 2 * x
    → under (suc fuel) m x
      ≡ is_at m x + (under (suc fuel) m (2 * x) + under (suc fuel) m (2 * x + 1))
split_between fuel m x h k = omega (
  arith,
  under_above fuel m x h,
  under_small fuel (m / 2) x (half_below m x k),
  under_small (suc fuel) m (2 * x) k,
  under_small (suc fuel) m (2 * x + 1) (omega arith),
  is_at_ne m x (λ e. omega arith),
)

split_left :
    (fuel x : ℕ)
    → 1 ≤ x
    → under (suc (suc fuel)) (2 * x) x
      ≡ is_at (2 * x) x
        + (under (suc (suc fuel)) (2 * x) (2 * x) + under (suc (suc fuel)) (2 * x) (2 * x + 1))
split_left fuel x h = omega (
  arith,
  under_above (suc fuel) (2 * x) x (omega arith),
  ap (λ m. under (suc fuel) m x) (half_double x),
  under_self fuel x,
  under_self (suc fuel) (2 * x),
  under_small (suc (suc fuel)) (2 * x) (2 * x + 1) (omega arith),
  is_at_ne (2 * x) x (λ e. omega arith),
)

split_right :
    (fuel x : ℕ)
    → 1 ≤ x
    → under (suc (suc fuel)) (2 * x + 1) x
      ≡ is_at (2 * x + 1) x
        + (under (suc (suc fuel)) (2 * x + 1) (2 * x)
            + under (suc (suc fuel)) (2 * x + 1) (2 * x + 1))
split_right fuel x h = omega (
  arith,
  under_above (suc fuel) (2 * x + 1) x (omega arith),
  ap (λ m. under (suc fuel) m x) (half_double_suc x),
  under_self fuel x,
  under_above (suc fuel) (2 * x + 1) (2 * x) (omega arith),
  ap (λ m. under (suc fuel) m (2 * x)) (half_double_suc x),
  under_small (suc fuel) x (2 * x) (omega arith),
  under_self (suc fuel) (2 * x + 1),
  is_at_ne (2 * x + 1) x (λ e. omega arith),
)

split_beyond :
    (fuel m x : ℕ)
    → 1 ≤ x
    → 2 * x + 1 < m
    → under fuel (m / 2) x
      ≡ is_at (m / 2) x + (under fuel (m / 2) (2 * x) + under fuel (m / 2) (2 * x + 1))
    → under (suc fuel) m x
      ≡ is_at m x + (under (suc fuel) m (2 * x) + under (suc fuel) m (2 * x + 1))
split_beyond fuel m x one h half = omega (
  arith,
  half,
  under_above fuel m x (omega arith),
  under_above fuel m (2 * x) (omega arith),
  under_above fuel m (2 * x + 1) h,
  is_at_ne (m / 2) x (λ e. omega arith),
  is_at_ne m x (λ e. omega arith),
)

-- What is under a node is the node or under one of its children.
under_split :
    (fuel m x : ℕ)
    → 1 ≤ x
    → m < fuel
    → under fuel m x ≡ is_at m x + (under fuel m (2 * x) + under fuel m (2 * x + 1))
under_split zero m x one h = absurd (omega arith)
under_split (suc zero) m x one h = split_below 1 m x (omega arith)
under_split (suc (suc fuel)) m x one h = elim (dec_lt m x) [
  | yes below ↦ split_below (suc (suc fuel)) m x below
  | no n0 ↦ elim (dec_lt x m) [
    | no n1 ↦ let same : m ≡ x = omega arith in rw same (split_self (suc fuel) x one)
    | yes above ↦ elim (dec_lt m (2 * x)) [
      | yes between ↦ split_between (suc fuel) m x above between
      | no n2 ↦ elim (dec_lt (2 * x + 1) m) [
        | yes beyond ↦
            split_beyond (suc fuel) m x one beyond
              (under_split (suc fuel) (m / 2) x one (omega arith))
        | no n3 ↦ elim (dec_lt (2 * x) m) [
          | no n4 ↦ let same : m ≡ 2 * x = omega arith in rw same (split_left fuel x one)
          | yes right ↦ let same : m ≡ 2 * x + 1 = omega arith in rw same (split_right fuel x one)
        ]
      ]
    ]
  ]
]

pub under_root : (fuel m : ℕ) → 1 ≤ m → m < fuel → under fuel m 1 ≡ 1
under_root zero m one h = absurd (omega arith)
under_root (suc fuel) m one h = elim (dec_lt 1 m) [
  | yes above ↦ under_above fuel m 1 above ∙ under_root fuel (m / 2) (omega arith) (omega arith)
  | no n ↦ let same : m ≡ 1 = omega arith in rw same (under_self fuel 1)
]

pub nodes_none : (fuel len node : ℕ) → len ≤ node → nodes fuel len node ≡ []
unfolding nodes
nodes_none zero len node h = refl
nodes_none (suc fuel) len node h = ground arith

pub nodes_some :
    (fuel len node : ℕ)
    → node < len
    → nodes (suc fuel) len node ≡ nodes fuel len (2 * node) ++ node ∷ nodes fuel len (2 * node + 1)
unfolding nodes
nodes_some fuel len node h = ground arith

pub count-nodes :
    (g fuel len node m : ℕ)
    → 1 ≤ node
    → len ≤ fuel + node
    → m < len
    → m < g
    → count m (nodes fuel len node) ≡ under g m node
count-nodes g zero len node m one enough h k =
    rw (nodes_none zero len node (omega arith)) (sym (under_small g m node (omega arith)))
count-nodes g (suc fuel) len node m one enough h k = elim (dec_lt node len) [
  | no n ↦
      rw (nodes_none (suc fuel) len node (omega arith)) (sym (under_small g m node (omega arith)))
  | yes inside ↦
      let left = count-nodes g fuel len (2 * node) m (omega arith) (omega arith) h k in
      let right = count-nodes g fuel len (2 * node + 1) m (omega arith) (omega arith) h k in
      let both =
        count-append m (nodes fuel len (2 * node)) (node ∷ nodes fuel len (2 * node + 1)) in
      rw (nodes_some fuel len node inside)
        (omega (arith, left, right, both, under_split g m node one k))
]
