-- ===== src/Store/OrdMap.antt =====
-- What the store uses of the crate `im`: ordered maps and sets, with their operations and their
-- documented behaviour as interfaces. Examples/Maps.antt gives both by sorted lists.
use ferratomic.Prelude.{◌≡◌, Bool, true, false, Option, none, some, Ordering}
use ferratomic.Prelude.Order.{Ord}
use ferratomic.Prelude.TreeMap
use ferratomic.Prelude.TreeMap.{TreeMap, lookup}

-- How `union_with` resolves a key: `f` decides where both maps have it.
abbrev pub united : {V : Type 0} → (V → V → V) → Option V → Option V → Option V
united f none y = y
united f (some x) none = some x
united f (some x) (some y) = some (f x y)

-- `im::OrdMap<K, V>`
pub record OrdMap {K : Type 0} (o : Ord K) (V : Type 0) : Type 1 where
  pub Carrier : Type 0
  pub empty : Carrier
  pub get : K → Carrier → Option V
  pub insert : K → V → Carrier → Carrier
  pub remove : K → Carrier → Carrier
  pub union_with : (V → V → V) → Carrier → Carrier → Carrier
  -- the entries in ascending order of the keys
  pub iter : Carrier → TreeMap K V
  pub get-empty : (k : K) → get k empty ≡ none
  pub get-insert : (k : K) (v : V) (m : Carrier) → get k (insert k v m) ≡ some v
  pub get-insert_ne :
      (i k : K) (v : V) (m : Carrier) → ¬ (o.cmp i k ≡ Ordering.eq) → get i (insert k v m) ≡ get i m
  pub get-remove : (k : K) (m : Carrier) → get k (remove k m) ≡ none
  pub get-remove_ne :
      (i k : K) (m : Carrier) → ¬ (o.cmp i k ≡ Ordering.eq) → get i (remove k m) ≡ get i m
  pub get-union_with :
      (f : V → V → V) (k : K) (m n : Carrier)
      → get k (union_with f m n) ≡ united f (get k m) (get k n)
  pub lookup-iter : (k : K) (m : Carrier) → lookup o k (iter m) ≡ get k m
  pub iter-IsSorted : (m : Carrier) → TreeMap.IsSorted o (iter m)

-- `im::OrdSet<A>`
pub record OrdSet {A : Type 0} (o : Ord A) : Type 1 where
  pub Carrier : Type 0
  pub empty : Carrier
  pub contains : A → Carrier → Bool
  pub insert : A → Carrier → Carrier
  pub remove : A → Carrier → Carrier
  pub is_empty : Carrier → Bool
  pub contains-empty : (a : A) → contains a empty ≡ false
  pub contains-insert : (a : A) (s : Carrier) → contains a (insert a s) ≡ true
  pub contains-insert_ne :
      (i a : A) (s : Carrier) → ¬ (o.cmp i a ≡ Ordering.eq) → contains i (insert a s) ≡ contains i s
  pub contains-remove : (a : A) (s : Carrier) → contains a (remove a s) ≡ false
  pub contains-remove_ne :
      (i a : A) (s : Carrier) → ¬ (o.cmp i a ≡ Ordering.eq) → contains i (remove a s) ≡ contains i s
  pub contains-is_empty : (a : A) (s : Carrier) → is_empty s ≡ true → contains a s ≡ false
