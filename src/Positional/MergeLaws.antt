-- ===== src/Positional/MergeLaws.antt =====
-- The merge is the union of sets (INV-FERR-001 to INV-FERR-004).
use ferratomic.Prelude.{
  ◌≤◌, ◌≡◌, refl, sym, ap, ◌∙◌, inl, inr, Option, none, some, List, [], ◌∷◌, length, arith,
  Ordering, Ordering-cases,
}
use ferratomic.Prelude.Order.{Ord, eq_cases}
use ferratomic.Prelude.TreeMap
use ferratomic.Prelude.TreeMap.{TreeMap, lookup}
use ferratomic.Positional.Merge.{merge_sort_dedup}

-- Whether an element is in either of two sets.
abbrev pub either : Option (Unit {0}) → Option (Unit {0}) → Option (Unit {0})
either (some x) b = some tt
either none b = b

pub either_comm : (a b : Option (Unit {0})) → either a b ≡ either b a
either_comm none none = refl
either_comm none (some b) = refl
either_comm (some a) none = refl
either_comm (some a) (some b) = refl

pub either_assoc : (a b c : Option (Unit {0})) → either (either a b) c ≡ either a (either b c)
either_assoc none b c = refl
either_assoc (some a) b c = refl

either_idem : (a : Option (Unit {0})) → either a a ≡ a
either_idem none = refl
either_idem (some a) = refl

module _ {ℓ} {A : Type ℓ} (o : Ord A) where
  -- An array as the set of its elements.
  abbrev pub entries : List A → TreeMap A (Unit {0})
  entries [] = []
  entries (x ∷ l) = (x, tt) ∷ entries l

  abbrev pub member : A → List A → Option (Unit {0})
  member x l = lookup o x (entries l)

  -- Sorted, without duplicates.
  abbrev pub IsCanonical : List A → Type ℓ
  IsCanonical l = TreeMap.IsSorted o (entries l)

  abbrev pub Above : A → List A → Type ℓ
  Above i l = TreeMap.Above o i (entries l)

  Above-merge_sort_dedup :
      (i : A) (a b : List A) → Above i a → Above i b → Above i (merge_sort_dedup o a b)
  unfolding merge_sort_dedup
  Above-merge_sort_dedup i [] b h k = k
  Above-merge_sort_dedup i (x ∷ a) [] h k = h
  Above-merge_sort_dedup i (x ∷ a) (y ∷ b) h k = elim (Ordering-cases (o.cmp x y)) [
    | inl e ↦ rw (e, merge_sort_dedup) (h.0, Above-merge_sort_dedup i a (y ∷ b) h.1 k)
    | inr (inl e) ↦ rw (e, merge_sort_dedup) (h.0, Above-merge_sort_dedup i a b h.1 k.1)
    | inr (inr e) ↦ rw (e, merge_sort_dedup) (k.0, Above-merge_sort_dedup i (x ∷ a) b h k.1)
  ]

  pub merge_sort_dedup-IsCanonical :
      (a b : List A) → IsCanonical a → IsCanonical b → IsCanonical (merge_sort_dedup o a b)
  unfolding merge_sort_dedup
  merge_sort_dedup-IsCanonical [] b s t = t
  merge_sort_dedup-IsCanonical (x ∷ a) [] s t = s
  merge_sort_dedup-IsCanonical (x ∷ a) (y ∷ b) s t = elim (Ordering-cases (o.cmp x y)) [
    | inl e ↦
        rw (e, merge_sort_dedup)
          (
            Above-merge_sort_dedup x a (y ∷ b) s.0 (e, TreeMap.Above-trans o x y (entries b) e t.0),
            merge_sort_dedup-IsCanonical a (y ∷ b) s.1 t,
          )
    | inr (inl e) ↦
        let same : x ≡ y = o.eq_of_cmp x y e in
        rw (e, merge_sort_dedup)
          (Above-merge_sort_dedup x a b s.0 (rw same t.0), merge_sort_dedup-IsCanonical a b s.1 t.1)
    | inr (inr e) ↦
        let below = o.cmp_lt x y e in
        rw (e, merge_sort_dedup)
          (
            Above-merge_sort_dedup y (x ∷ a) b
                (below, TreeMap.Above-trans o y x (entries a) below s.0) t.0,
            merge_sort_dedup-IsCanonical (x ∷ a) b s t.1,
          )
  ]

  pub member_head : (x : A) (l : List A) → member x (x ∷ l) ≡ some tt
  member_head x l = TreeMap.lookup_head o x tt (entries l)

  pub member_ne :
      (i x : A) (l : List A) → ¬ (o.cmp i x ≡ Ordering.eq) → member i (x ∷ l) ≡ member i l
  member_ne i x l k = TreeMap.lookup_ne o i x tt (entries l) k

  member_cons :
      (i x : A) (l m : List A) (n : Option (Unit {0}))
      → member i l ≡ either (member i m) n
      → member i (x ∷ l) ≡ either (member i (x ∷ m)) n
  member_cons i x l m n h = elim (eq_cases o i x) [
    | inl e ↦ rw (e, member_head x l, member_head x m) refl
    | inr k ↦ rw (member_ne i x l k, member_ne i x m k) h
  ]

  both :
      (i x : A) (l m n : List A)
      → member i l ≡ either (member i m) (member i n)
      → member i (x ∷ l) ≡ either (member i (x ∷ m)) (member i (x ∷ n))
  both i x l m n h = elim (eq_cases o i x) [
    | inl e ↦ rw (e, member_head x l, member_head x m) refl
    | inr k ↦ rw (member_ne i x l k, member_ne i x m k, member_ne i x n k) h
  ]

  pub member-merge_sort_dedup :
      (i : A) (a b : List A) → member i (merge_sort_dedup o a b) ≡ either (member i a) (member i b)
  unfolding merge_sort_dedup
  member-merge_sort_dedup i [] b = rw (TreeMap.lookup-Above o i [] tt) refl
  member-merge_sort_dedup i (x ∷ a) [] =
      rw (TreeMap.lookup-Above o i [] tt) (sym (either_comm (member i (x ∷ a)) none))
  member-merge_sort_dedup i (x ∷ a) (y ∷ b) = elim (Ordering-cases (o.cmp x y)) [
    | inl e ↦
        rw (e, merge_sort_dedup)
          (member_cons i x _ a (member i (y ∷ b)) (member-merge_sort_dedup i a (y ∷ b)))
    | inr (inl e) ↦
        rw (e, merge_sort_dedup, sym (o.eq_of_cmp x y e))
          (both i x _ a b (member-merge_sort_dedup i a b))
    | inr (inr e) ↦
        rw (e, merge_sort_dedup)
          (member_cons i y _ b (member i (x ∷ a))
              (member-merge_sort_dedup i (x ∷ a) b ∙ either_comm (member i (x ∷ a)) (member i b))
            ∙ either_comm (member i (y ∷ b)) (member i (x ∷ a)))
  ]

  elements : TreeMap A (Unit {0}) → List A
  elements [] = []
  elements ((x, u) ∷ m) = x ∷ elements m

  elements-entries : (l : List A) → elements (entries l) ≡ l
  unfolding elements
  elements-entries [] = refl
  elements-entries (x ∷ l) = ap (λ r. x ∷ r) (elements-entries l)

  -- Canonical arrays with the same elements are equal.
  pub canonical_ext :
      (a b : List A) → IsCanonical a → IsCanonical b → ((i : A) → member i a ≡ member i b) → a ≡ b
  canonical_ext a b s t h =
      sym (elements-entries a)
      ∙ ap elements (TreeMap.ext o (entries a) (entries b) s t h)
      ∙ elements-entries b

  length-merge_sort_dedup :
      (a b : List A)
      → (length a ≤ length (merge_sort_dedup o a b)) × (length b ≤ length (merge_sort_dedup o a b))
  unfolding merge_sort_dedup
  length-merge_sort_dedup [] b = (omega arith, omega arith)
  length-merge_sort_dedup (x ∷ a) [] = (omega arith, omega arith)
  length-merge_sort_dedup (x ∷ a) (y ∷ b) = elim (Ordering-cases (o.cmp x y)) [
    | inl e ↦
        let (h, k) = length-merge_sort_dedup a (y ∷ b) in
        rw (e, merge_sort_dedup) (omega arith, omega arith)
    | inr (inl e) ↦
        let (h, k) = length-merge_sort_dedup a b in
        rw (e, merge_sort_dedup) (omega arith, omega arith)
    | inr (inr e) ↦
        let (h, k) = length-merge_sort_dedup (x ∷ a) b in
        rw (e, merge_sort_dedup) (omega arith, omega arith)
  ]

  -- Of canonical arrays the merge is canonical, is commutative, associative and idempotent, and at
  -- least as long as either; its elements are those of both.
  pub merge_sort_dedup_union :
      (a b c : List A)
      → IsCanonical a
      → IsCanonical b
      → IsCanonical c
      → IsCanonical (merge_sort_dedup o a b)
        × ((i : A) → member i (merge_sort_dedup o a b) ≡ either (member i a) (member i b))
        × (merge_sort_dedup o a b ≡ merge_sort_dedup o b a)
        × (merge_sort_dedup o (merge_sort_dedup o a b) c
            ≡ merge_sort_dedup o a (merge_sort_dedup o b c))
        × (merge_sort_dedup o a a ≡ a)
        × (length a ≤ length (merge_sort_dedup o a b))
        × (length b ≤ length (merge_sort_dedup o a b))
  merge_sort_dedup_union a b c s t u =
      let ab = merge_sort_dedup-IsCanonical a b s t in
      let bc = merge_sort_dedup-IsCanonical b c t u in
      (
        ab,
        (λ i. member-merge_sort_dedup i a b),
        canonical_ext _ _ ab (merge_sort_dedup-IsCanonical b a t s) (λ i.
            member-merge_sort_dedup i a b
            ∙ either_comm (member i a) (member i b)
            ∙ sym (member-merge_sort_dedup i b a)),
        canonical_ext _ _ (merge_sort_dedup-IsCanonical _ c ab u)
            (merge_sort_dedup-IsCanonical a _ s bc)
            (λ i. cc (
              member-merge_sort_dedup i (merge_sort_dedup o a b) c,
              member-merge_sort_dedup i a b,
              member-merge_sort_dedup i a (merge_sort_dedup o b c),
              member-merge_sort_dedup i b c,
              either_assoc (member i a) (member i b) (member i c),
            )),
        canonical_ext _ _ (merge_sort_dedup-IsCanonical a a s s) s
            (λ i. member-merge_sort_dedup i a a ∙ either_idem (member i a)),
        (length-merge_sort_dedup a b).0,
        (length-merge_sort_dedup a b).1,
      )
