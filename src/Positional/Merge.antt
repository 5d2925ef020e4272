-- ===== src/Positional/Merge.antt =====
-- The merge of canonical arrays (merge.rs). The order of datoms is the parameter `o`, as derived
-- for `Datom`; both arrays are sorted by it and have no duplicates.
use ferratomic.Prelude.{List, [], ◌∷◌, Ordering}
use ferratomic.Prelude.Order.{Ord}

-- `merge_sort_dedup`: what the loop pushes from the rest of both arrays, and the two copies at its
-- end.
unfoldable pub merge_sort_dedup {ℓ} : {A : Type ℓ} → Ord A → List A → List A → List A
merge_sort_dedup o [] b = b
merge_sort_dedup o (x ∷ a) [] = x ∷ a
merge_sort_dedup o (x ∷ a) (y ∷ b) = elim (o.cmp x y) [
  | Ordering.lt ↦ x ∷ merge_sort_dedup o a (y ∷ b)
  | Ordering.gt ↦ y ∷ merge_sort_dedup o (x ∷ a) b
  | Ordering.eq ↦ x ∷ merge_sort_dedup o a b
]
