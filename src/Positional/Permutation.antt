-- ===== src/Positional/Permutation.antt =====
-- The permutation of an array in the order of a key (build_permutation of perm.rs). The unstable
-- sort of the standard library is an insertion sort.
use ferratomic.Prelude.{ℕ, zero, suc, min, Option, some, List, [], ◌∷◌, Ordering, length, get_elem?}
use ferratomic.Prelude.Order.{Ord}
use ferratomic.Positional.Eytzinger.{sentinel}

-- The positions from `i` on, `u32::try_from(i).unwrap_or(u32::MAX)`
unfoldable pub indices : ℕ → ℕ → List ℕ
indices i zero = []
indices i (suc n) = min i sentinel ∷ indices (suc i) n

module _ {A : Type 0} {K : Type 0} (o : Ord K) (key_fn : A → K) (canonical : List A) where
  -- The comparison of two elements; there is none outside of the array, where an index panics.
  abbrev pub compare_keys : Option A → Option A → Ordering
  compare_keys (some a) (some b) = o.cmp (key_fn a) (key_fn b)
  compare_keys x y = Ordering.eq

  unfoldable pub insert_position : ℕ → List ℕ → List ℕ
  insert_position pos [] = pos ∷ []
  insert_position pos (q ∷ l) =
      let rest = insert_position pos l in
      elim (compare_keys (get_elem? canonical pos) (get_elem? canonical q)) [
        | Ordering.gt ↦ q ∷ rest
        | _ ↦ pos ∷ q ∷ l
      ]

  unfoldable pub sort_positions : List ℕ → List ℕ
  sort_positions [] = []
  sort_positions (pos ∷ l) = insert_position pos (sort_positions l)

  unfoldable pub build_permutation : List ℕ
  build_permutation = sort_positions (indices 0 (length canonical))

-- The comparison of elements that a search by a key is given
abbrev pub against {ℓ κ} : {A : Type ℓ} {K : Type κ} → Ord K → (A → K) → K → A → Ordering
against o key_fn target d = o.cmp (key_fn d) target
