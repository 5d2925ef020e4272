-- ===== src/Positional/PermutationSearch.antt =====
-- An array is searched by a key through its permutation (perm.rs, INV-FERR-071, INV-FERR-073).
use ferratomic.Prelude.{
  ℕ, zero, suc, ◌+◌, ◌^◌, ◌<◌, ◌≤◌, ◌≡◌, ap, ◌∙◌, inl, inr, some, List, [], ◌∷◌, Ordering, length,
  get_elem?, All, arith,
}
use native.Mathlib.Decide.{dec_lt}
use ferratomic.Prelude.Order.{Ord}
use ferratomic.Positional.Eytzinger.{
  Search, found, absent, out_of_bounds, out_of_fuel, layout_permutation, layout_search,
}
use ferratomic.Positional.EytzingerOrder.{rank, rank_of, Has, Finds}
use ferratomic.Positional.EytzingerSearch.{layout_search-Finds}
use ferratomic.Positional.PermutationOrder.{sort-IsOrdered, sort-Has}
use ferratomic.Positional.Permutation.{against, indices, sort_positions, build_permutation}

module _ {A : Type 0} {K : Type 0} (o : Ord K) (key_fn : A → K) (canonical : List A)
    (target : K) where
  abbrev cmp_fn : A → Ordering
  cmp_fn = against o key_fn target

  found_range : (l : List A) (pos : ℕ) (d : A) → get_elem? l pos ≡ some d → pos < length l
  found_range [] pos d h = cc
  found_range (x ∷ l) zero d h = omega arith
  found_range (x ∷ l) (suc pos) d h = omega (arith, found_range l pos d h)

  indices-Has :
      (i n p : ℕ) → i + n ≤ 2 ^ 32 → i ≤ p → p < i + n → Has canonical cmp_fn (indices i n) p
  unfolding indices
  indices-Has i zero p b h k = absurd (omega (arith, h, k))
  indices-Has i (suc n) p b h k = elim (dec_lt i p) [
    | yes less ↦ inr (indices-Has (suc i) n p (omega arith) less (omega arith))
    | no n ↦ inl ground arith
  ]

  indices-All : (i n : ℕ) → i + n ≤ length canonical → All (λ p. p < length canonical) (indices i n)
  unfolding indices
  indices-All i zero h = tt
  indices-All i (suc n) h = (ground arith, indices-All (suc i) n (omega arith))

  -- What a search by the key has to return: an element with the key, or that no element has it.
  abbrev pub FindsKey : Search A → Type 0
  FindsKey (found d) = (p : ℕ) × (get_elem? canonical p ≡ some d) × (key_fn d ≡ target)
  FindsKey absent = (p : ℕ) (d : A) → get_elem? canonical p ≡ some d → ¬ (key_fn d ≡ target)
  FindsKey out_of_bounds = ⊥
  FindsKey out_of_fuel = ⊥

  Finds-FindsKey :
      (l : List ℕ) (r : Search A)
      → ((p : ℕ) → p < length canonical → Has canonical cmp_fn l p)
      → Finds canonical cmp_fn l r
      → FindsKey r
  Finds-FindsKey l (found d) all (p, h, x, e) = (p, x, o.eq_of_cmp (key_fn d) target e)
  Finds-FindsKey l absent all none_has = λ p d x e.
      none_has p (all p (found_range canonical p d x)) (
        ap (rank_of canonical cmp_fn) x
        ∙ ap (rank canonical cmp_fn) (ap (λ k. o.cmp k target) e ∙ o.cmp_refl target))
  Finds-FindsKey l out_of_bounds all h = h
  Finds-FindsKey l out_of_fuel all h = h

  -- In an array of at most 2^32 elements, a search in the layout of the permutation by a key ends,
  -- and returns an element with the key, or reports that no element has it.
  pub layout_search-build_permutation :
      length canonical ≤ 2 ^ 32
      → FindsKey (
          layout_search canonical cmp_fn
            (layout_permutation (build_permutation o key_fn canonical)))
  unfolding build_permutation
  layout_search-build_permutation bound =
      let start = indices 0 (length canonical) in
      let sorted = sort_positions o key_fn canonical start in
      let order =
        sort-IsOrdered o key_fn canonical target start
          (indices-All 0 (length canonical) (omega arith)) in
      Finds-FindsKey sorted (layout_search canonical cmp_fn (layout_permutation sorted))
        (λ p h. sort-Has o key_fn canonical target start p (
          indices-Has 0 (length canonical) p (omega (arith, bound)) (omega arith)
            (omega (arith, h))))
        (layout_search-Finds canonical cmp_fn sorted order)
