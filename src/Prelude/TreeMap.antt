-- ===== src/Prelude/TreeMap.antt =====
-- `BTreeMap<K, V>`: the entries in ascending order of their keys, each key once.
use ferratomic.Prelude.Order.{Ord}
use ferratomic.Prelude.Tests.{Ordering-cases}
use Prim.Native.Nat.{Ordering}
use mathlib.Core.Path.{◌≡◌, refl, sym, ◌∙◌}
use mathlib.Core.Logic.{inl, inr}
use mathlib.Core.List.{List, [], ◌∷◌}
use mathlib.Core.Option.{Option, none, some}
use native.Mathlib.Omega.{arith}

abbrev pub TreeMap {ℓ κ} : Type ℓ → Type κ → Type (ℓ ⊔ κ)
TreeMap K V = List (K × V)

module _ {ℓ κ} {K : Type ℓ} {V : Type κ} (o : Ord K) where
  -- `get`
  unfoldable pub lookup : K → TreeMap K V → Option V
  lookup k [] = none
  lookup k ((j, v) ∷ m) = elim (o.cmp k j) [ Ordering.eq ↦ some v | _ ↦ lookup k m ]

  -- `insert`, and a write through `entry`
  unfoldable pub insert : K → V → TreeMap K V → TreeMap K V
  insert k v [] = (k, v) ∷ []
  insert k v ((j, w) ∷ m) = elim (o.cmp k j) [
    | Ordering.lt ↦ (k, v) ∷ (j, w) ∷ m
    | Ordering.eq ↦ (k, v) ∷ m
    | Ordering.gt ↦ (j, w) ∷ insert k v m
  ]

  -- Every key of the map lies above `k`.
  abbrev pub Above : K → TreeMap K V → Type ℓ
  Above k [] = Unit
  Above k ((j, w) ∷ m) = (o.cmp k j ≡ Ordering.lt) × Above k m

  abbrev pub IsSorted : TreeMap K V → Type ℓ
  IsSorted [] = Unit
  IsSorted ((k, v) ∷ m) = Above k m × IsSorted m

  pub Above-trans : (i k : K) (m : TreeMap K V) → o.cmp i k ≡ Ordering.lt → Above k m → Above i m
  Above-trans i k [] h a = tt
  Above-trans i k ((j, w) ∷ m) h a = (o.cmp_trans i k j h a.0, Above-trans i k m h a.1)

  Above-insert :
      (i k : K) (v : V) (m : TreeMap K V)
      → o.cmp i k ≡ Ordering.lt
      → Above i m
      → Above i (insert k v m)
  unfolding insert
  Above-insert i k v [] h a = (h, tt)
  Above-insert i k v ((j, w) ∷ m) h a = elim (Ordering-cases (o.cmp k j)) [
    | inl e ↦ rw (e, Above, insert) (h, a)
    | inr (inl e) ↦ rw (e, Above, insert) (h, a.1)
    | inr (inr e) ↦ rw (e, Above, insert) (a.0, Above-insert i k v m h a.1)
  ]

  pub insert-IsSorted : (k : K) (v : V) (m : TreeMap K V) → IsSorted m → IsSorted (insert k v m)
  unfolding insert
  insert-IsSorted k v [] s = (tt, tt)
  insert-IsSorted k v ((j, w) ∷ m) s = elim (Ordering-cases (o.cmp k j)) [
    | inl e ↦ rw (e, IsSorted, insert) ((e, Above-trans k j m e s.0), s)
    | inr (inl e) ↦ rw (e, IsSorted, insert) (rw (o.eq_of_cmp k j e) s)
    | inr (inr e) ↦
        rw (e, IsSorted, insert)
          (Above-insert j k v m (o.cmp_lt k j e) s.0, insert-IsSorted k v m s.1)
  ]

  pub lookup-insert_self : (k : K) (v : V) (m : TreeMap K V) → lookup k (insert k v m) ≡ some v
  unfolding lookup insert
  lookup-insert_self k v [] = ground (arith, o.cmp_refl k)
  lookup-insert_self k v ((j, w) ∷ m) = ground (arith, o.cmp_refl k, lookup-insert_self k v m)

  pub lookup-insert_lt :
      (i k : K) (v : V) (m : TreeMap K V)
      → o.cmp i k ≡ Ordering.lt
      → lookup i (insert k v m) ≡ lookup i m
  unfolding lookup insert
  lookup-insert_lt i k v [] h = ground arith
  lookup-insert_lt i k v ((j, w) ∷ m) h = ground (arith, o.eq_of_cmp k j, lookup-insert_lt i k v m)

  pub lookup-insert_gt :
      (i k : K) (v : V) (m : TreeMap K V)
      → o.cmp i k ≡ Ordering.gt
      → lookup i (insert k v m) ≡ lookup i m
  unfolding lookup insert
  lookup-insert_gt i k v [] h = ground arith
  lookup-insert_gt i k v ((j, w) ∷ m) h = ground (arith, o.eq_of_cmp k j, lookup-insert_gt i k v m)

  pub lookup-Above : (k : K) (m : TreeMap K V) → Above k m → lookup k m ≡ none
  unfolding lookup
  lookup-Above k [] a = refl
  lookup-Above k ((j, w) ∷ m) a = ground (arith, a.0, lookup-Above k m a.1)

  pub lookup_head : (k : K) (v : V) (m : TreeMap K V) → lookup k ((k, v) ∷ m) ≡ some v
  unfolding lookup
  lookup_head k v m = rw (o.cmp_refl k, lookup)

  lookup_skip :
      (i k : K) (v : V) (m : TreeMap K V)
      → o.cmp i k ≡ Ordering.gt
      → lookup i ((k, v) ∷ m) ≡ lookup i m
  unfolding lookup
  lookup_skip i k v m h = rw (h, lookup)

  pub lookup_ne :
      (i k : K) (v : V) (m : TreeMap K V)
      → ¬ (o.cmp i k ≡ Ordering.eq)
      → lookup i ((k, v) ∷ m) ≡ lookup i m
  unfolding lookup
  lookup_ne i k v m h = ground (arith, h)

  pub lookup-insert_ne :
      (i k : K) (v : V) (m : TreeMap K V)
      → ¬ (o.cmp i k ≡ Ordering.eq)
      → lookup i (insert k v m) ≡ lookup i m
  lookup-insert_ne i k v m h = elim (Ordering-cases (o.cmp i k)) [
    | inl e ↦ lookup-insert_lt i k v m e
    | inr (inl e) ↦ absurd (h e)
    | inr (inr e) ↦ lookup-insert_gt i k v m e
  ]

  -- A key below the first one is not in a sorted map.
  lookup_below :
      (i k : K) (v : V) (m : TreeMap K V)
      → Above k m
      → o.cmp i k ≡ Ordering.lt
      → lookup i ((k, v) ∷ m) ≡ none
  lookup_below i k v m a h = lookup-Above i ((k, v) ∷ m) (h, Above-trans i k m h a)

  ext_head :
      (k j : K) (v w : V) (m n : TreeMap K V)
      → Above k m
      → Above j n
      → ((i : K) → lookup i ((k, v) ∷ m) ≡ lookup i ((j, w) ∷ n))
      → o.cmp k j ≡ Ordering.eq
  ext_head k j v w m n a b h = elim (Ordering-cases (o.cmp k j)) [
    | inl e ↦ cc (lookup_head k v m, h k, lookup_below k j w n b e)
    | inr (inl e) ↦ e
    | inr (inr e) ↦ cc (lookup_head j w n, h j, lookup_below j k v m a (o.cmp_lt k j e))
  ]

  ext_tail :
      (k : K) (v : V) (m n : TreeMap K V)
      → Above k m
      → Above k n
      → ((i : K) → lookup i ((k, v) ∷ m) ≡ lookup i ((k, v) ∷ n))
      → (i : K) → lookup i m ≡ lookup i n
  ext_tail k v m n a b h i = elim (Ordering-cases (o.cmp i k)) [
    | inl e ↦
        lookup-Above i m (Above-trans i k m e a) ∙ sym (lookup-Above i n (Above-trans i k n e b))
    | inr (inl e) ↦ rw (o.eq_of_cmp i k e) (lookup-Above k m a ∙ sym (lookup-Above k n b))
    | inr (inr e) ↦ sym (lookup_skip i k v m e) ∙ h i ∙ lookup_skip i k v n e
  ]

  -- Sorted maps that answer every lookup alike are equal.
  pub ext :
      (m n : TreeMap K V) → IsSorted m → IsSorted n → ((i : K) → lookup i m ≡ lookup i n) → m ≡ n
  ext [] [] s t h = refl
  ext [] ((j, w) ∷ n) s t h = cc (lookup_head j w n, h j, lookup-Above j [] tt)
  ext ((k, v) ∷ m) [] s t h = cc (lookup_head k v m, h k, lookup-Above k [] tt)
  ext ((k, v) ∷ m) ((j, w) ∷ n) s t h =
      let e = o.eq_of_cmp k j (ext_head k j v w m n s.0 t.0 h) in
      let same : some v ≡ some w = cc (lookup_head k v m, h k, lookup_head j w n) in
      let v_eq : v ≡ w = cc in
      let heads : (i : K) → lookup i ((k, v) ∷ m) ≡ lookup i ((k, v) ∷ n) = λ i. cc (h i) in
      let tails : m ≡ n = ext m n s.1 t.1 (ext_tail k v m n s.0 (rw e t.0) heads) in cc
