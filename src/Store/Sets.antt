-- ===== src/Store/Sets.antt =====
-- Unsorted arrays as sets: sorting, deduplicating and inserting one by one give the same canonical
-- array as a merge.
use ferratomic.Prelude.{
  ◌≡◌, refl, sym, ap, ◌∙◌, ◌⊎◌, inl, inr, none, some, List, [], ◌∷◌, ◌++◌, Ordering, Ordering-cases,
}
use ferratomic.Prelude.Order.{Ord, eq_cases}
use ferratomic.Prelude.TreeMap
use ferratomic.Positional.Merge.{merge_sort_dedup}
use ferratomic.Positional.MergeLaws.{
  member, either, either_comm, either_assoc, IsCanonical, Above, member_head, member_ne,
  member-merge_sort_dedup, merge_sort_dedup-IsCanonical, canonical_ext,
}
use ferratomic.Store.Merge.{insert_sorted, sort_unstable, dedup_from, dedup}

module _ {ℓ} {A : Type ℓ} (o : Ord A) where
  -- Two arrays with the same elements
  abbrev SameElements : List A → List A → Type ℓ
  SameElements l m = (i : A) → member o i l ≡ member o i m

  same_cons : (x : A) (l m : List A) → SameElements l m → SameElements (x ∷ l) (x ∷ m)
  same_cons x l m h i = elim (eq_cases o i x) [
    | inl e ↦ rw (e, member_head o x l, member_head o x m) refl
    | inr n ↦ rw (member_ne o i x l n, member_ne o i x m n) (h i)
  ]

  head_at : (i x : A) (l : List A) → i ≡ x → member o i (x ∷ l) ≡ some tt
  head_at i x l e = rw e (member_head o x l)

  same_swap : (x y : A) (l : List A) → SameElements (x ∷ y ∷ l) (y ∷ x ∷ l)
  same_swap x y l i = elim (eq_cases o i x) [
    | inl e ↦ elim (eq_cases o i y) [
      | inl f ↦ head_at i x (y ∷ l) e ∙ sym (head_at i y (x ∷ l) f)
      | inr n ↦ head_at i x (y ∷ l) e ∙ sym (member_ne o i y (x ∷ l) n ∙ head_at i x l e)
    ]
    | inr n ↦ elim (eq_cases o i y) [
      | inl f ↦ member_ne o i x (y ∷ l) n ∙ head_at i y l f ∙ sym (head_at i y (x ∷ l) f)
      | inr m ↦
          member_ne o i x (y ∷ l) n
          ∙ member_ne o i y l m
          ∙ sym (member_ne o i y (x ∷ l) m ∙ member_ne o i x l n)
    ]
  ]

  same_twice : (x : A) (l : List A) → SameElements (x ∷ l) (x ∷ x ∷ l)
  same_twice x l i = elim (eq_cases o i x) [
    | inl e ↦ rw (e, member_head o x l, member_head o x (x ∷ l)) refl
    | inr n ↦ sym (member_ne o i x (x ∷ l) n)
  ]

  member-insert_sorted : (x : A) (l : List A) → SameElements (insert_sorted o x l) (x ∷ l)
  unfolding insert_sorted
  member-insert_sorted x [] i = refl
  member-insert_sorted x (y ∷ l) i = elim (Ordering-cases (o.cmp x y)) [
    | inl e ↦ rw (e, insert_sorted) refl
    | inr (inl e) ↦ rw (e, insert_sorted) refl
    | inr (inr e) ↦
        rw (e, insert_sorted)
          (same_cons y (insert_sorted o x l) (x ∷ l) (member-insert_sorted x l) i
            ∙ same_swap y x l i)
  ]

  member-sort_unstable : (l : List A) → SameElements (sort_unstable o l) l
  unfolding sort_unstable
  member-sort_unstable [] i = refl
  member-sort_unstable (x ∷ l) i =
      member-insert_sorted x (sort_unstable o l) i
      ∙ same_cons x (sort_unstable o l) l (member-sort_unstable l) i

  abbrev Le : A → A → Type ℓ
  Le x y = (o.cmp x y ≡ Ordering.lt) ⊎ (x ≡ y)

  abbrev NoneBelow : A → List A → Type ℓ
  NoneBelow x [] = Unit
  NoneBelow x (y ∷ l) = Le x y × NoneBelow x l

  abbrev IsAscending : List A → Type ℓ
  IsAscending [] = Unit
  IsAscending (x ∷ l) = NoneBelow x l × IsAscending l

  Le-trans : (x y z : A) → Le x y → Le y z → Le x z
  Le-trans x y z (inl h) (inl k) = inl (o.cmp_trans x y z h k)
  Le-trans x y z (inl h) (inr k) = inl (rw (sym k) h)
  Le-trans x y z (inr h) k = rw h k

  NoneBelow-trans : (x y : A) (l : List A) → Le x y → NoneBelow y l → NoneBelow x l
  NoneBelow-trans x y [] h k = tt
  NoneBelow-trans x y (z ∷ l) h k = (Le-trans x y z h k.0, NoneBelow-trans x y l h k.1)

  NoneBelow-insert_sorted :
      (i x : A) (l : List A) → Le i x → NoneBelow i l → NoneBelow i (insert_sorted o x l)
  unfolding insert_sorted
  NoneBelow-insert_sorted i x [] h k = (h, tt)
  NoneBelow-insert_sorted i x (y ∷ l) h k = elim (Ordering-cases (o.cmp x y)) [
    | inl e ↦ rw (e, insert_sorted) (h, k)
    | inr (inl e) ↦ rw (e, insert_sorted) (h, k)
    | inr (inr e) ↦ rw (e, insert_sorted) (k.0, NoneBelow-insert_sorted i x l h k.1)
  ]

  insert_sorted-IsAscending :
      (x : A) (l : List A) → IsAscending l → IsAscending (insert_sorted o x l)
  unfolding insert_sorted
  insert_sorted-IsAscending x [] s = (tt, tt)
  insert_sorted-IsAscending x (y ∷ l) s = elim (Ordering-cases (o.cmp x y)) [
    | inl e ↦ rw (e, insert_sorted) ((inl e, NoneBelow-trans x y l (inl e) s.0), s)
    | inr (inl e) ↦
        let le : Le x y = inr (o.eq_of_cmp x y e) in
        rw (e, insert_sorted) ((le, NoneBelow-trans x y l le s.0), s)
    | inr (inr e) ↦
        rw (e, insert_sorted)
          (
            NoneBelow-insert_sorted y x l (inl (o.cmp_lt x y e)) s.0,
            insert_sorted-IsAscending x l s.1,
          )
  ]

  sort_unstable-IsAscending : (l : List A) → IsAscending (sort_unstable o l)
  unfolding sort_unstable
  sort_unstable-IsAscending [] = tt
  sort_unstable-IsAscending (x ∷ l) =
      insert_sorted-IsAscending x (sort_unstable o l) (sort_unstable-IsAscending l)

  Above-dedup_from :
      (i x : A) (l : List A)
      → o.cmp i x ≡ Ordering.lt
      → NoneBelow x l
      → IsAscending l
      → Above o i (dedup_from o x l)
  unfolding dedup_from
  Above-dedup_from i x [] h k s = tt
  Above-dedup_from i x (y ∷ l) h (inl e, k) s =
      let below = o.cmp_trans i x y h e in
      rw (e, dedup_from) (below, Above-dedup_from i y l below s.0 s.1)
  Above-dedup_from i x (y ∷ l) h (inr e, k) s =
      rw (sym e, o.cmp_refl x, dedup_from) (Above-dedup_from i x l h k s.1)

  -- What `dedup_from` keeps behind `x`
  dedup_from-IsCanonical :
      (x : A) (l : List A) → NoneBelow x l → IsAscending l → IsCanonical o (x ∷ dedup_from o x l)
  unfolding dedup_from
  dedup_from-IsCanonical x [] k s = (tt, tt)
  dedup_from-IsCanonical x (y ∷ l) (inl e, k) s =
      rw (e, dedup_from) ((e, Above-dedup_from x y l e s.0 s.1), dedup_from-IsCanonical y l s.0 s.1)
  dedup_from-IsCanonical x (y ∷ l) (inr e, k) s =
      rw (sym e, o.cmp_refl x, dedup_from) (dedup_from-IsCanonical x l k s.1)

  member-dedup_from :
      (x : A) (l : List A)
      → NoneBelow x l
      → IsAscending l
      → SameElements (x ∷ dedup_from o x l) (x ∷ l)
  unfolding dedup_from
  member-dedup_from x [] k s i = refl
  member-dedup_from x (y ∷ l) (inl e, k) s i =
      rw (e, dedup_from)
        (same_cons x (y ∷ dedup_from o y l) (y ∷ l) (member-dedup_from y l s.0 s.1) i)
  member-dedup_from x (y ∷ l) (inr e, k) s i =
      rw (sym e, o.cmp_refl x, dedup_from) (member-dedup_from x l k s.1 i ∙ same_twice x l i)

  dedup-IsCanonical : (l : List A) → IsAscending l → IsCanonical o (dedup o l)
  unfolding dedup
  dedup-IsCanonical [] s = tt
  dedup-IsCanonical (x ∷ l) s = dedup_from-IsCanonical x l s.0 s.1

  member-dedup : (l : List A) → IsAscending l → SameElements (dedup o l) l
  unfolding dedup
  member-dedup [] s i = refl
  member-dedup (x ∷ l) s i = member-dedup_from x l s.0 s.1 i

  -- The canonical array of any array
  abbrev pub canonical_of : List A → List A
  canonical_of l = dedup o (sort_unstable o l)

  pub canonical_of-IsCanonical : (l : List A) → IsCanonical o (canonical_of l)
  canonical_of-IsCanonical l = dedup-IsCanonical (sort_unstable o l) (sort_unstable-IsAscending l)

  member-canonical_of : (i : A) (l : List A) → member o i (canonical_of l) ≡ member o i l
  member-canonical_of i l =
      member-dedup (sort_unstable o l) (sort_unstable-IsAscending l) i ∙ member-sort_unstable l i

  -- The union of a canonical array and any array
  abbrev pub union : List A → List A → List A
  union a b = merge_sort_dedup o a (canonical_of b)

  pub union-IsCanonical : (a b : List A) → IsCanonical o a → IsCanonical o (union a b)
  union-IsCanonical a b h =
      merge_sort_dedup-IsCanonical o a (canonical_of b) h (canonical_of-IsCanonical b)

  member-union :
      (i : A) (a b : List A) → member o i (union a b) ≡ either (member o i a) (member o i b)
  member-union i a b =
      member-merge_sort_dedup o i a (canonical_of b)
      ∙ ap (either (member o i a)) (member-canonical_of i b)

  member-append :
      (i : A) (a b : List A) → member o i (a ++ b) ≡ either (member o i a) (member o i b)
  member-append i [] b = sym (ap (λ r. either r (member o i b)) (TreeMap.lookup-Above o i [] tt))
  member-append i (x ∷ a) b = elim (eq_cases o i x) [
    | inl e ↦ head_at i x (a ++ b) e ∙ sym (ap (λ r. either r (member o i b)) (head_at i x a e))
    | inr n ↦
        member_ne o i x (a ++ b) n
        ∙ member-append i a b
        ∙ sym (ap (λ r. either r (member o i b)) (member_ne o i x a n))
  ]

  -- Two unions one after the other are the union with both arrays.
  pub union-union : (a b c : List A) → IsCanonical o a → union (union a b) c ≡ union a (b ++ c)
  union-union a b c h =
      canonical_ext o (union (union a b) c) (union a (b ++ c))
        (union-IsCanonical (union a b) c (union-IsCanonical a b h)) (union-IsCanonical a (b ++ c) h)
        (λ i.
          member-union i (union a b) c
          ∙ ap (λ r. either r (member o i c)) (member-union i a b)
          ∙ either_assoc (member o i a) (member o i b) (member o i c)
          ∙ ap (either (member o i a)) (sym (member-append i b c))
          ∙ sym (member-union i a (b ++ c)))

  pub union_empty : (a : List A) → IsCanonical o a → union a [] ≡ a
  unfolding sort_unstable dedup
  union_empty a h = canonical_ext o (union a []) a (union-IsCanonical a [] h) h (λ i.
      member-union i a []
      ∙ ap (either (member o i a)) (TreeMap.lookup-Above o i [] tt)
      ∙ either_comm (member o i a) none)

  -- The union with one element is what an ordered set's insertion gives.
  pub union_one :
      (x : A) (a m : List A)
      → IsCanonical o a
      → IsCanonical o m
      → member o x m ≡ some tt
      → ((i : A) → ¬ (o.cmp i x ≡ Ordering.eq) → member o i m ≡ member o i a)
      → union a (x ∷ []) ≡ m
  union_one x a m h k self others =
      canonical_ext o (union a (x ∷ [])) m (union-IsCanonical a (x ∷ []) h) k
        (λ i. member-union i a (x ∷ []) ∙ at i (eq_cases o i x))
    where
      at :
          (i : A)
          → (i ≡ x) ⊎ (¬ (o.cmp i x ≡ Ordering.eq))
          → either (member o i a) (member o i (x ∷ [])) ≡ member o i m
      at i (inl e) =
          ap (either (member o i a)) (head_at i x [] e)
          ∙ either_comm (member o i a) (some tt)
          ∙ sym (rw e self)
      at i (inr n) =
          ap (either (member o i a)) (member_ne o i x [] n ∙ TreeMap.lookup-Above o i [] tt)
          ∙ either_comm (member o i a) none
          ∙ sym (others i n)
