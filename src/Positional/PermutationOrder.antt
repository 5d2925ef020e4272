-- ===== src/Positional/PermutationOrder.antt =====
-- The permutation of an array is in the order of the key (perm.rs).
use ferratomic.Prelude.{
  ℕ, zero, suc, ◌<◌, ◌≤◌, ◌≡◌, refl, sym, ap, subst, ◌∙◌, ◌⊎◌, inl, inr, Option, none, some, List,
  [], ◌∷◌, Ordering, Ordering-cases, length, get_elem?, All, All-map, arith,
}
use ferratomic.Prelude.Order.{Ord}
use ferratomic.Positional.EytzingerOrder.{rank, rank_at, IsOrdered, Has}
use ferratomic.Positional.Permutation.{against, compare_keys, insert_position, sort_positions}

module _ {A : Type 0} {K : Type 0} (o : Ord K) (key_fn : A → K) (canonical : List A)
    (target : K) where
  abbrev cmp_fn : A → Ordering
  cmp_fn = against o key_fn target

  abbrev rank_here : ℕ → ℕ
  rank_here = rank_at canonical cmp_fn

  -- Greater keys do not rank lower.
  rank_rises :
      (a b : K)
      → ¬ (o.cmp a b ≡ Ordering.gt)
      → rank canonical cmp_fn (o.cmp a target) ≤ rank canonical cmp_fn (o.cmp b target)
  rank_rises a b h = elim (Ordering-cases (o.cmp a target)) [
    | inl p ↦ rw p (omega arith)
    | inr (inl p) ↦ elim (Ordering-cases (o.cmp b target)) [
      | inl q ↦
          let turned = o.cmp_gt b target q in
          let same = o.eq_of_cmp a target p in absurd (h (ap (λ t. o.cmp t b) same ∙ turned))
      | inr (inl q) ↦ rw (p, q) (omega arith)
      | inr (inr q) ↦ rw (p, q) (omega arith)
    ]
    | inr (inr p) ↦ elim (Ordering-cases (o.cmp b target)) [
      | inl q ↦
          let between = o.cmp_trans b target a q (o.cmp_lt a target p) in
          absurd (h (o.cmp_gt b a between))
      | inr (inl q) ↦ absurd (h (ap (o.cmp a) (o.eq_of_cmp b target q) ∙ p))
      | inr (inr q) ↦ rw (p, q) (omega arith)
    ]
  ]

  abbrev Within : List ℕ → Type 0
  Within l = All (λ pos. pos < length canonical) l

  in_range : (l : List A) (pos : ℕ) → pos < length l → (d : A) × (get_elem? l pos ≡ some d)
  in_range [] pos h = absurd (omega (arith, h))
  in_range (x ∷ l) zero h = (x, refl)
  in_range (x ∷ l) (suc pos) h = in_range l pos (omega (arith, h))

  abbrev Against : ℕ → ℕ → Ordering
  Against pos q = compare_keys o key_fn canonical (get_elem? canonical pos) (get_elem? canonical q)

  -- An element goes behind the first ones with smaller keys.
  insert_behind :
      (pos q : ℕ) (l : List ℕ)
      → Against pos q ≡ Ordering.gt
      → insert_position o key_fn canonical pos (q ∷ l)
        ≡ q ∷ insert_position o key_fn canonical pos l
  unfolding insert_position
  insert_behind pos q l e = rw (insert_position, e) refl

  insert_before :
      (pos q : ℕ) (l : List ℕ)
      → ¬ (Against pos q ≡ Ordering.gt)
      → insert_position o key_fn canonical pos (q ∷ l) ≡ pos ∷ q ∷ l
  unfolding insert_position
  insert_before pos q l n = elim (Ordering-cases (Against pos q)) [
    | inl e ↦ rw (insert_position, e) refl
    | inr (inl e) ↦ rw (insert_position, e) refl
    | inr (inr e) ↦ absurd (n e)
  ]

  insert-nil : (pos : ℕ) → insert_position o key_fn canonical pos [] ≡ pos ∷ []
  unfolding insert_position
  insert-nil pos = refl

  not_gt : (x : Ordering) → (x ≡ Ordering.gt) ⊎ ¬ (x ≡ Ordering.gt)
  not_gt Ordering.lt = inr (λ e. cc)
  not_gt Ordering.eq = inr (λ e. cc)
  not_gt Ordering.gt = inl refl

  insert-Has :
      (pos : ℕ) (l : List ℕ) (p : ℕ)
      → Has canonical cmp_fn (pos ∷ l) p
      → Has canonical cmp_fn (insert_position o key_fn canonical pos l) p
  insert-Has pos [] p h = rw (insert-nil pos) h
  insert-Has pos (q ∷ l) p h = elim (not_gt (Against pos q)) [
    | inr n ↦ subst (λ r. Has canonical cmp_fn r p) (sym (insert_before pos q l n)) h
    | inl e ↦
        subst (λ r. Has canonical cmp_fn r p) (sym (insert_behind pos q l e))
          (elim h [
            | inl k ↦ inr (insert-Has pos l p (inl k))
            | inr (inl k) ↦ inl k
            | inr (inr k) ↦ inr (insert-Has pos l p (inr k))
          ])
  ]

  -- What holds of the position and of all the others holds of all after the insertion.
  insert-All :
      (P : ℕ → Type 0) (pos : ℕ) (l : List ℕ)
      → P pos
      → All P l
      → All P (insert_position o key_fn canonical pos l)
  insert-All P pos [] h a = rw (insert-nil pos) (h, tt)
  insert-All P pos (q ∷ l) h a = elim (not_gt (Against pos q)) [
    | inr n ↦ subst (All P) (sym (insert_before pos q l n)) (h, a)
    | inl e ↦ subst (All P) (sym (insert_behind pos q l e)) (a.0, insert-All P pos l h a.1)
  ]

  ranks_rise :
      (p q : ℕ)
      → p < length canonical
      → q < length canonical
      → ¬ (Against p q ≡ Ordering.gt)
      → rank_here p ≤ rank_here q
  ranks_rise p q h k n =
      let (a, x) = in_range canonical p h in
      let (b, y) = in_range canonical q k in
      let order : ¬ (o.cmp (key_fn a) (key_fn b) ≡ Ordering.gt) = λ e. (n (rw (x, y) e)) in
      rw (x, y) (rank_rises (key_fn a) (key_fn b) order)

  turned :
      (x y : Option A)
      → compare_keys o key_fn canonical x y ≡ Ordering.gt
      → ¬ (compare_keys o key_fn canonical y x ≡ Ordering.gt)
  turned none y e = cc
  turned (some a) none e = cc
  turned (some a) (some b) e = λ g. cc (o.cmp_lt (key_fn a) (key_fn b) e, g)

  turned_round : (p q : ℕ) → Against p q ≡ Ordering.gt → ¬ (Against q p ≡ Ordering.gt)
  turned_round p q e = turned (get_elem? canonical p) (get_elem? canonical q) e

  insert-IsOrdered :
      (pos : ℕ) (l : List ℕ)
      → pos < length canonical
      → IsOrdered canonical cmp_fn l
      → IsOrdered canonical cmp_fn (insert_position o key_fn canonical pos l)
  insert-IsOrdered pos [] h d = rw (insert-nil pos) (h, tt, tt)
  insert-IsOrdered pos (q ∷ l) h d = elim (not_gt (Against pos q)) [
    | inr n ↦
        let first = ranks_rise pos q h d.0 n in
        subst (IsOrdered canonical cmp_fn) (sym (insert_before pos q l n))
          (h, (first, All-map _ _ l (λ p r. omega (arith, first, r)) d.1), d)
    | inl e ↦ subst (IsOrdered canonical cmp_fn) (sym (insert_behind pos q l e)) (
      d.0,
      insert-All (λ p. rank_here q ≤ rank_here p) pos l
          (ranks_rise q pos d.0 h (turned_round pos q e)) d.1,
      insert-IsOrdered pos l h d.2,
    )
  ]

  pub sort-IsOrdered :
      (l : List ℕ)
      → All (λ p. p < length canonical) l
      → IsOrdered canonical cmp_fn (sort_positions o key_fn canonical l)
  unfolding sort_positions
  sort-IsOrdered [] h = tt
  sort-IsOrdered (pos ∷ l) h =
      insert-IsOrdered pos (sort_positions o key_fn canonical l) h.0 (sort-IsOrdered l h.1)

  pub sort-Has :
      (l : List ℕ) (p : ℕ)
      → Has canonical cmp_fn l p
      → Has canonical cmp_fn (sort_positions o key_fn canonical l) p
  unfolding sort_positions
  sort-Has [] p h = h
  sort-Has (pos ∷ l) p (inl e) = insert-Has pos (sort_positions o key_fn canonical l) p (inl e)
  sort-Has (pos ∷ l) p (inr h) =
      insert-Has pos (sort_positions o key_fn canonical l) p (inr (sort-Has l p h))
