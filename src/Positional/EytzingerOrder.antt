-- ===== src/Positional/EytzingerOrder.antt =====
-- What a search over positions has to find, and its steps (perm.rs).
use ferratomic.Prelude.{
  ℕ, zero, suc, ◌≤◌, ◌<◌, ◌≡◌, refl, ap, ◌∙◌, ◌⊎◌, inl, inr, Option, none, some, List, [], ◌∷◌,
  ◌++◌, Ordering, Ordering-cases, length, get_elem?, All, arith,
}
use ferratomic.Positional.Eytzinger.{Search, found, absent, out_of_bounds, out_of_fuel, visit}

module _ {A : Type 0} (canonical : List A) (cmp_fn : A → Ordering) where
  abbrev pub rank : Ordering → ℕ
  rank Ordering.lt = 0
  rank Ordering.eq = 1
  rank Ordering.gt = 2

  abbrev pub rank_of : Option A → ℕ
  rank_of none = 3
  rank_of (some d) = rank (cmp_fn d)

  -- How the datom at a position compares: less, equal, greater, in this order.
  abbrev pub rank_at : ℕ → ℕ
  rank_at pos = rank_of (get_elem? canonical pos)

  -- Every position is one of the array, and the datoms compare in ascending order.
  abbrev pub IsOrdered : List ℕ → Type 0
  IsOrdered [] = Unit
  IsOrdered (pos ∷ l) =
      (pos < length canonical) × All (λ p. rank_at pos ≤ rank_at p) l × IsOrdered l

  abbrev pub Has : List ℕ → ℕ → Type 0
  Has [] p = ⊥
  Has (q ∷ l) p = (p ≡ q) ⊎ Has l p

  -- What a search over the positions has to return: a datom that compares equal, or that there is
  -- none.
  abbrev pub Finds : List ℕ → Search A → Type 0
  Finds l (found d) =
      (p : ℕ) × Has l p × (get_elem? canonical p ≡ some d) × (cmp_fn d ≡ Ordering.eq)
  Finds l absent = (p : ℕ) → Has l p → ¬ (rank_at p ≡ 1)
  Finds l out_of_bounds = ⊥
  Finds l out_of_fuel = ⊥

  Has-left : (l r : List ℕ) (p : ℕ) → Has l p → Has (l ++ r) p
  Has-left [] r p h = absurd h
  Has-left (x ∷ l) r p (inl e) = inl e
  Has-left (x ∷ l) r p (inr h) = inr (Has-left l r p h)

  Has-right : (l r : List ℕ) (p : ℕ) → Has r p → Has (l ++ r) p
  Has-right [] r p h = h
  Has-right (x ∷ l) r p h = inr (Has-right l r p h)

  Has-append : (l r : List ℕ) (p : ℕ) → Has (l ++ r) p → Has l p ⊎ Has r p
  Has-append [] r p h = inr h
  Has-append (x ∷ l) r p (inl e) = inl (inl e)
  Has-append (x ∷ l) r p (inr h) = elim (Has-append l r p h) [ inl k ↦ inl (inr k) | inr k ↦ inr k ]

  All-Has : (P : ℕ → Type 0) (l : List ℕ) (p : ℕ) → All P l → Has l p → P p
  All-Has P [] p a h = absurd h
  All-Has P (x ∷ l) p a (inl e) = rw e a.0
  All-Has P (x ∷ l) p a (inr h) = All-Has P l p a.1 h

  -- The parts of an ordered list around an element.
  pub record Parted (l : List ℕ) (x : ℕ) (r : List ℕ) : Type 0 where
    pub left : IsOrdered l
    pub right : IsOrdered r
    pub inside : x < length canonical
    pub below : (p : ℕ) → Has l p → rank_at p ≤ rank_at x
    pub above : (p : ℕ) → Has r p → rank_at x ≤ rank_at p

  All-left : (P : ℕ → Type 0) (l r : List ℕ) → All P (l ++ r) → All P l
  All-left P [] r h = tt
  All-left P (x ∷ l) r h = (h.0, All-left P l r h.1)

  pub part : (l : List ℕ) (x : ℕ) (r : List ℕ) → IsOrdered (l ++ x ∷ r) → Parted l x r
  part [] x r o = record {
    left = tt;
    right = o.2;
    inside = o.0;
    below = λ p n. absurd n;
    above = λ p h. All-Has (λ q. rank_at x ≤ rank_at q) r p o.1 h;
  }
  part (y ∷ l) x r o =
      let rest = part l x r o.2 in
      record {
        left = (o.0, All-left (λ q. rank_at y ≤ rank_at q) l (x ∷ r) o.1, rest.left);
        right = rest.right;
        inside = rest.inside;
        below = λ p h. elim h [
          | inl e ↦ rw e (
              All-Has (λ q. rank_at y ≤ rank_at q) (l ++ x ∷ r) x o.1
                (Has-right l (x ∷ r) x (inl refl)))
          | inr k ↦ rest.below p k
        ];
        above = rest.above;
      }

  pub get_elem_inside : (l : List A) (i : ℕ) → i < length l → (d : A) × (get_elem? l i ≡ some d)
  get_elem_inside [] i h = absurd (omega arith)
  get_elem_inside (x ∷ l) zero h = (x, refl)
  get_elem_inside (x ∷ l) (suc i) h = get_elem_inside l i (omega arith)

  -- A search of a part finds for the whole, when nothing else compares equal.
  Finds-part :
      (l m : List ℕ) (s : Search A)
      → ((p : ℕ) → Has m p → Has l p)
      → ((p : ℕ) → Has l p → Has m p ⊎ (¬ (rank_at p ≡ 1)))
      → Finds m s
      → Finds l s
  Finds-part l m (found d) f g (p, h, e, c) = (p, f p h, e, c)
  Finds-part l m absent f g h = λ p k. elim (g p k) [ inl i ↦ h p i | inr n ↦ n ]
  Finds-part l m out_of_bounds f g h = h
  Finds-part l m out_of_fuel f g h = h

  pub rank-some :
      (x : ℕ) (d : A) (o : Ordering)
      → get_elem? canonical x ≡ some d
      → cmp_fn d ≡ o
      → rank_at x ≡ rank o
  rank-some x d o e c = ap rank_of e ∙ ap rank c

  pub visit-Finds :
      (l : List ℕ) (x : ℕ) (r : List ℕ) (right left : Search A)
      → Parted l x r
      → Finds r right
      → Finds l left
      → Finds (l ++ x ∷ r) (visit canonical cmp_fn (get_elem? canonical x) right left)
  unfolding visit
  visit-Finds l x r right left part h k =
      let (d, e) = get_elem_inside canonical x part.inside in
      elim (Ordering-cases (cmp_fn d)) [
        | inl c ↦
            let least : rank_at x ≡ 0 = rank-some x d Ordering.lt e c in
            rw (e, visit, c)
              (Finds-part (l ++ x ∷ r) r right (λ p i. Has-right l (x ∷ r) p (inr i))
                (λ p i. elim (Has-append l (x ∷ r) p i) [
                  | inl j ↦ inr (λ one. omega (arith, one, part.below p j, least))
                  | inr (inl j) ↦ inr (λ one. omega (arith, one, ap rank_at j, least))
                  | inr (inr j) ↦ inl j
                ])
                h)
        | inr (inl c) ↦ rw (e, visit, c) (x, Has-right l (x ∷ r) x (inl refl), e, c)
        | inr (inr c) ↦
            let most : rank_at x ≡ 2 = rank-some x d Ordering.gt e c in
            rw (e, visit, c)
              (Finds-part (l ++ x ∷ r) l left (Has-left l (x ∷ r))
                (λ p i. elim (Has-append l (x ∷ r) p i) [
                  | inl j ↦ inl j
                  | inr (inl j) ↦ inr (λ one. omega (arith, one, ap rank_at j, most))
                  | inr (inr j) ↦ inr (λ one. omega (arith, one, part.above p j, most))
                ])
                k)
      ]
