-- ===== src/Store/Sorting.antt =====
-- Sorting and counting canonical arrays.
use ferratomic.Prelude.{
  ℕ, ◌+◌, ◌≡◌, refl, ap, ◌∙◌, inl, inr, Option, none, some, List, [], ◌∷◌, length, Ordering,
  Ordering-cases, arith,
}
use ferratomic.Prelude.Order.{Ord}
use ferratomic.Prelude.TreeMap
use ferratomic.Positional.Merge.{merge_sort_dedup}
use ferratomic.Positional.MergeLaws.{entries, member, IsCanonical, Above, member_head, member_ne}
use ferratomic.Store.Merge.{insert_sorted, sort_unstable, dedup_from, dedup}

module _ {ℓ} {A : Type ℓ} (o : Ord A) where
  insert_sorted_below : (x : A) (l : List A) → Above o x l → insert_sorted o x l ≡ x ∷ l
  unfolding insert_sorted
  insert_sorted_below x [] h = refl
  insert_sorted_below x (y ∷ l) h = rw (h.0, insert_sorted) refl

  sort_canonical : (l : List A) → IsCanonical o l → sort_unstable o l ≡ l
  unfolding sort_unstable
  sort_canonical [] s = refl
  sort_canonical (x ∷ l) s =
      ap (insert_sorted o x) (sort_canonical l s.1) ∙ insert_sorted_below x l s.0

  dedup_from_canonical : (x : A) (l : List A) → Above o x l → IsCanonical o l → dedup_from o x l ≡ l
  unfolding dedup_from
  dedup_from_canonical x [] h s = refl
  dedup_from_canonical x (y ∷ l) h s =
      rw (h.0, dedup_from) (ap (λ r. y ∷ r) (dedup_from_canonical y l s.0 s.1))

  dedup_canonical : (l : List A) → IsCanonical o l → dedup o l ≡ l
  unfolding dedup
  dedup_canonical [] s = refl
  dedup_canonical (x ∷ l) s = ap (λ r. x ∷ r) (dedup_from_canonical x l s.0 s.1)

  -- Sorting and deduplicating a canonical array changes nothing.
  pub dedup-sort_unstable : (l : List A) → IsCanonical o l → dedup o (sort_unstable o l) ≡ l
  dedup-sort_unstable l s = ap (dedup o) (sort_canonical l s) ∙ dedup_canonical l s

  abbrev pub one_if_absent : Option (Unit {0}) → ℕ
  one_if_absent none = 1
  one_if_absent (some u) = 0

  -- How many elements of the second array the first has not.
  abbrev pub count_new : List A → List A → ℕ
  count_new a [] = 0
  count_new a (y ∷ b) = one_if_absent (member o y a) + count_new a b

  not_eq_below : (x y : A) → o.cmp x y ≡ Ordering.lt → ¬ (o.cmp y x ≡ Ordering.eq)
  not_eq_below x y h e = let g = o.cmp_gt x y h in cc

  count_new_below : (x : A) (a b : List A) → Above o x b → count_new (x ∷ a) b ≡ count_new a b
  count_new_below x a [] h = refl
  count_new_below x a (y ∷ b) h =
      let tail = count_new_below x a b h.1 in
      let head : one_if_absent (member o y (x ∷ a)) ≡ one_if_absent (member o y a) =
        ap one_if_absent (member_ne o y x a (not_eq_below x y h.0)) in
      omega (arith, head, tail)

  pub length-merge_sort_dedup_new :
      (a b : List A)
      → IsCanonical o a
      → IsCanonical o b
      → length (merge_sort_dedup o a b) ≡ length a + count_new a b
  unfolding merge_sort_dedup
  length-merge_sort_dedup_new [] [] s t = refl
  length-merge_sort_dedup_new [] (y ∷ b) s t =
      let absent : one_if_absent (member o y []) ≡ 1 =
        ap one_if_absent (TreeMap.lookup-Above o y [] tt) in
      let tail = length-merge_sort_dedup_new [] b tt t.1 in omega (arith, absent, tail)
  length-merge_sort_dedup_new (x ∷ a) [] s t = omega arith
  length-merge_sort_dedup_new (x ∷ a) (y ∷ b) s t = elim (Ordering-cases (o.cmp x y)) [
    | inl e ↦
        let rest = length-merge_sort_dedup_new a (y ∷ b) s.1 t in
        let above = TreeMap.Above-trans o x y (entries o b) e t.0 in
        let same = count_new_below x a (y ∷ b) (e, above) in
        rw (e, merge_sort_dedup) (omega (arith, rest, same))
    | inr (inl e) ↦
        let rest = length-merge_sort_dedup_new a b s.1 t.1 in
        let eq : x ≡ y = o.eq_of_cmp x y e in
        let same = count_new_below x a b (rw eq t.0) in
        let found : member o y (x ∷ a) ≡ some tt = rw eq (member_head o y a) in
        let present : one_if_absent (member o y (x ∷ a)) ≡ 0 = ap one_if_absent found in
        rw (e, merge_sort_dedup) (omega (arith, rest, same, present))
    | inr (inr e) ↦
        let rest = length-merge_sort_dedup_new (x ∷ a) b s t.1 in
        let below = o.cmp_lt x y e in
        let absent : one_if_absent (member o y (x ∷ a)) ≡ 1 = ap one_if_absent (
          TreeMap.lookup-Above o y (entries o (x ∷ a))
            (below, TreeMap.Above-trans o y x (entries o a) below s.0)) in
        rw (e, merge_sort_dedup) (omega (arith, rest, absent))
  ]
