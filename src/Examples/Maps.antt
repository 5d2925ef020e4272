-- ===== src/Examples/Maps.antt =====
-- Sorted lists of entries as ordered maps and sets.
use ferratomic.Prelude.{
  ◌≡◌, refl, sym, ap, ◌∙◌, inl, inr, Bool, true, false, Option, none, some, [], ◌∷◌, Ordering,
  Ordering-cases, arith,
}
use ferratomic.Prelude.Order.{Ord, eq_cases}
use ferratomic.Prelude.TreeMap
use ferratomic.Prelude.TreeMap.{TreeMap, lookup, insert, IsSorted, Above}
use ferratomic.Store.OrdMap.{OrdMap, OrdSet, united}

abbrev pub Sorted : {K : Type 0} → Ord K → Type 0 → Type 0
Sorted {K} o V = (m : TreeMap K V) × IsSorted o m

module _ {K V : Type 0} (o : Ord K) where
  unfoldable remove : K → TreeMap K V → TreeMap K V
  remove k [] = []
  remove k ((j, w) ∷ m) = elim (o.cmp k j) [ Ordering.eq ↦ m | _ ↦ (j, w) ∷ remove k m ]

  Above-remove : (i k : K) (m : TreeMap K V) → Above o i m → Above o i (remove k m)
  unfolding remove
  Above-remove i k [] a = tt
  Above-remove i k ((j, w) ∷ m) a = elim (Ordering-cases (o.cmp k j)) [
    | inl e ↦ rw (e, remove) (a.0, Above-remove i k m a.1)
    | inr (inl e) ↦ rw (e, remove) a.1
    | inr (inr e) ↦ rw (e, remove) (a.0, Above-remove i k m a.1)
  ]

  remove-IsSorted : (k : K) (m : TreeMap K V) → IsSorted o m → IsSorted o (remove k m)
  unfolding remove
  remove-IsSorted k [] s = tt
  remove-IsSorted k ((j, w) ∷ m) s = elim (Ordering-cases (o.cmp k j)) [
    | inl e ↦ rw (e, remove) (Above-remove j k m s.0, remove-IsSorted k m s.1)
    | inr (inl e) ↦ rw (e, remove) s.1
    | inr (inr e) ↦ rw (e, remove) (Above-remove j k m s.0, remove-IsSorted k m s.1)
  ]

  lookup-remove : (k : K) (m : TreeMap K V) → IsSorted o m → lookup o k (remove k m) ≡ none
  unfolding remove lookup
  lookup-remove k [] s = refl
  lookup-remove k ((j, w) ∷ m) s = elim (Ordering-cases (o.cmp k j)) [
    | inl e ↦ rw (e, remove, lookup, e) (lookup-remove k m s.1)
    | inr (inl e) ↦ rw (e, remove) (rw (o.eq_of_cmp k j e) (TreeMap.lookup-Above o j m s.0))
    | inr (inr e) ↦ rw (e, remove, lookup, e) (lookup-remove k m s.1)
  ]

  lookup-remove_ne :
      (i k : K) (m : TreeMap K V)
      → ¬ (o.cmp i k ≡ Ordering.eq)
      → lookup o i (remove k m) ≡ lookup o i m
  unfolding remove lookup
  lookup-remove_ne i k [] h = refl
  lookup-remove_ne i k ((j, w) ∷ m) h = ground (arith, lookup-remove_ne i k m h, o.eq_of_cmp k j, h)

  unfoldable with_default : (V → V → V) → V → Option V → V
  with_default f y none = y
  with_default f y (some x) = f x y

  unfoldable union_with : (V → V → V) → TreeMap K V → TreeMap K V → TreeMap K V
  union_with f m [] = m
  union_with f m ((k, y) ∷ n) = union_with f (insert o k (with_default f y (lookup o k m)) m) n

  union_with-IsSorted :
      (f : V → V → V) (m n : TreeMap K V) → IsSorted o m → IsSorted o (union_with f m n)
  unfolding union_with
  union_with-IsSorted f m [] s = s
  union_with-IsSorted f m ((k, y) ∷ n) s =
      let v = with_default f y (lookup o k m) in
      union_with-IsSorted f (insert o k v m) n (TreeMap.insert-IsSorted o k v m s)

  united-some :
      (f : V → V → V) (x : Option V) (y : V) → some (with_default f y x) ≡ united f x (some y)
  unfolding with_default
  united-some f none y = refl
  united-some f (some x) y = refl

  united-none : (f : V → V → V) (x : Option V) → united f x none ≡ x
  united-none f none = refl
  united-none f (some x) = refl

  lookup-union_with :
      (f : V → V → V) (i : K) (m n : TreeMap K V)
      → IsSorted o n
      → lookup o i (union_with f m n) ≡ united f (lookup o i m) (lookup o i n)
  unfolding union_with
  lookup-union_with f i m [] s =
      sym (
        ap (united f (lookup o i m)) (TreeMap.lookup-Above o i [] tt)
        ∙ united-none f (lookup o i m))
  lookup-union_with f i m ((k, y) ∷ n) s =
      let v = with_default f y (lookup o k m) in
      elim (eq_cases o i k) [
        | inl e ↦
            rw (e, TreeMap.lookup_head o k y n)
              (lookup-union_with f k (insert o k v m) n s.1
                ∙ ap (united f (lookup o k (insert o k v m))) (TreeMap.lookup-Above o k n s.0)
                ∙ united-none f (lookup o k (insert o k v m))
                ∙ TreeMap.lookup-insert_self o k v m
                ∙ united-some f (lookup o k m) y)
        | inr h ↦
            lookup-union_with f i (insert o k v m) n s.1
            ∙ rw (TreeMap.lookup_ne o i k y n h)
                (ap (λ x. united f x (lookup o i n)) (TreeMap.lookup-insert_ne o i k v m h))
      ]

  pub sorted_map : OrdMap o V
  sorted_map = record {
    Carrier = Sorted o V;
    empty = ([], tt);
    get = λ k m. lookup o k m.0;
    insert = λ k v m. (insert o k v m.0, TreeMap.insert-IsSorted o k v m.0 m.1);
    remove = λ k m. (remove k m.0, remove-IsSorted k m.0 m.1);
    union_with = λ f m n. (union_with f m.0 n.0, union_with-IsSorted f m.0 n.0 m.1);
    iter = λ m. m.0;
    get-empty = λ k. TreeMap.lookup-Above o k [] tt;
    get-insert = λ k v m. TreeMap.lookup-insert_self o k v m.0;
    get-insert_ne = λ i k v m h. TreeMap.lookup-insert_ne o i k v m.0 h;
    get-remove = λ k m. lookup-remove k m.0 m.1;
    get-remove_ne = λ i k m h. lookup-remove_ne i k m.0 h;
    get-union_with = λ f k m n. lookup-union_with f k m.0 n.0 n.1;
    lookup-iter = λ k m. refl;
    iter-IsSorted = λ m. m.1;
  }

module _ {A : Type 0} (o : Ord A) where
  abbrev is_some : Option (Unit {0}) → Bool
  is_some none = false
  is_some (some u) = true

  abbrev is_nil : TreeMap A (Unit {0}) → Bool
  is_nil [] = true
  is_nil (x ∷ l) = false

  absent_of_nil :
      (a : A) (m : TreeMap A (Unit {0})) → is_nil m ≡ true → is_some (lookup o a m) ≡ false
  absent_of_nil a [] h = ap is_some (TreeMap.lookup-Above o a [] tt)
  absent_of_nil a (x ∷ l) h = cc

  pub sorted_set : OrdSet o
  sorted_set = record {
    Carrier = Sorted o (Unit {0});
    empty = ([], tt);
    contains = λ a s. is_some (lookup o a s.0);
    insert = λ a s. (insert o a tt s.0, TreeMap.insert-IsSorted o a tt s.0 s.1);
    remove = λ a s. (remove o a s.0, remove-IsSorted o a s.0 s.1);
    is_empty = λ s. is_nil s.0;
    contains-empty = λ a. ap is_some (TreeMap.lookup-Above o a [] tt);
    contains-insert = λ a s. ap is_some (TreeMap.lookup-insert_self o a tt s.0);
    contains-insert_ne = λ i a s h. ap is_some (TreeMap.lookup-insert_ne o i a tt s.0 h);
    contains-remove = λ a s. ap is_some (lookup-remove o a s.0 s.1);
    contains-remove_ne = λ i a s h. ap is_some (lookup-remove_ne o i a s.0 h);
    contains-is_empty = λ a s h. absent_of_nil a s.0 h;
  }
