-- ===== src/Prelude/Order.antt =====
-- Rust's `Ord`: a three-way comparison with its laws, and the orders that `derive(Ord)` builds.
use ferratomic.Prelude.Tests.{Ordering-cases}
use Prim.Native.Nat.{ℕ, compare, Ordering}
use mathlib.Core.Path.{◌≡◌, refl}
use mathlib.Core.Logic.{◌⊎◌, inl, inr}
use mathlib.Core.List.{List, [], ◌∷◌}
use native.Mathlib.Omega.{arith}

pub record Ord {ℓ} (A : Type ℓ) : Type ℓ where
  pub cmp : A → A → Ordering
  pub cmp_refl : (a : A) → cmp a a ≡ Ordering.eq
  pub eq_of_cmp : (a b : A) → cmp a b ≡ Ordering.eq → a ≡ b
  pub cmp_gt : (a b : A) → cmp a b ≡ Ordering.lt → cmp b a ≡ Ordering.gt
  pub cmp_lt : (a b : A) → cmp a b ≡ Ordering.gt → cmp b a ≡ Ordering.lt
  pub cmp_trans :
      (a b c : A) → cmp a b ≡ Ordering.lt → cmp b c ≡ Ordering.lt → cmp a c ≡ Ordering.lt

-- `Ordering::then_with`
abbrev pub then_with : Ordering → Ordering → Ordering
then_with Ordering.lt o = Ordering.lt
then_with Ordering.eq o = o
then_with Ordering.gt o = Ordering.gt

pub nat_refl : (a : ℕ) → compare a a ≡ Ordering.eq
nat_refl a = ground arith

pub nat_eq : (a b : ℕ) → compare a b ≡ Ordering.eq → a ≡ b
nat_eq a b h = ground arith

pub nat_gt : (a b : ℕ) → compare a b ≡ Ordering.lt → compare b a ≡ Ordering.gt
nat_gt a b h = ground arith

pub nat_lt : (a b : ℕ) → compare a b ≡ Ordering.gt → compare b a ≡ Ordering.lt
nat_lt a b h = ground arith

pub nat_trans :
    (a b c : ℕ) → compare a b ≡ Ordering.lt → compare b c ≡ Ordering.lt → compare a c ≡ Ordering.lt
nat_trans a b c h k = ground arith

abbrev pub nat_ord : Ord ℕ
nat_ord = record {
  cmp = compare;
  cmp_refl = nat_refl;
  eq_of_cmp = nat_eq;
  cmp_gt = nat_gt;
  cmp_lt = nat_lt;
  cmp_trans = nat_trans;
}

-- The order of a two-field struct: the first field decides, the second breaks ties.
module _ {ℓ κ} {A : Type ℓ} {B : Type κ} (oa : Ord A) (ob : Ord B) where
  abbrev pub pair_cmp : A × B → A × B → Ordering
  pair_cmp (a, b) (c, d) = then_with (oa.cmp a c) (ob.cmp b d)

  pub pair_eq : (p q : A × B) → pair_cmp p q ≡ Ordering.eq → p ≡ q
  pair_eq (a, b) (c, d) h = elim (Ordering-cases (oa.cmp a c)) [
    | inl e ↦ ground (arith, e)
    | inr (inl e) ↦ cc (oa.eq_of_cmp a c e, ob.eq_of_cmp b d (rw e at h))
    | inr (inr e) ↦ ground (arith, e)
  ]

  pub pair_gt : (p q : A × B) → pair_cmp p q ≡ Ordering.lt → pair_cmp q p ≡ Ordering.gt
  pair_gt (a, b) (c, d) h =
      ground (arith, oa.cmp_gt a c, oa.eq_of_cmp a c, oa.cmp_refl c, ob.cmp_gt b d)

  pub pair_lt : (p q : A × B) → pair_cmp p q ≡ Ordering.gt → pair_cmp q p ≡ Ordering.lt
  pair_lt (a, b) (c, d) h =
      ground (arith, oa.cmp_lt a c, oa.eq_of_cmp a c, oa.cmp_refl c, ob.cmp_lt b d)

  pub pair_trans :
      (p q r : A × B)
      → pair_cmp p q ≡ Ordering.lt
      → pair_cmp q r ≡ Ordering.lt
      → pair_cmp p r ≡ Ordering.lt
  pair_trans (a, b) (c, d) (e, f) h k =
      ground (arith, oa.cmp_trans a c e, oa.eq_of_cmp a c, oa.eq_of_cmp c e, ob.cmp_trans b d f)

  pub pair_refl : (p : A × B) → pair_cmp p p ≡ Ordering.eq
  pair_refl p = ground (arith, oa.cmp_refl p.0, ob.cmp_refl p.1)

  abbrev pub pair_ord : Ord (A × B)
  pair_ord = record {
    cmp = pair_cmp;
    cmp_refl = pair_refl;
    eq_of_cmp = pair_eq;
    cmp_gt = pair_gt;
    cmp_lt = pair_lt;
    cmp_trans = pair_trans;
  }

-- The lexicographic order of byte arrays, slices and strings.
module _ {ℓ} {A : Type ℓ} (o : Ord A) where
  unfoldable pub list_cmp : List A → List A → Ordering
  list_cmp [] [] = Ordering.eq
  list_cmp [] (y ∷ ys) = Ordering.lt
  list_cmp (x ∷ xs) [] = Ordering.gt
  list_cmp (x ∷ xs) (y ∷ ys) = then_with (o.cmp x y) (list_cmp xs ys)

  pub list_refl : (xs : List A) → list_cmp xs xs ≡ Ordering.eq
  unfolding list_cmp
  list_refl [] = refl
  list_refl (x ∷ xs) = ground (arith, o.cmp_refl x, list_refl xs)

  pub list_eq : (xs ys : List A) → list_cmp xs ys ≡ Ordering.eq → xs ≡ ys
  unfolding list_cmp
  list_eq [] [] h = refl
  list_eq [] (y ∷ ys) h = cc
  list_eq (x ∷ xs) [] h = cc
  list_eq (x ∷ xs) (y ∷ ys) h = ground (arith, o.eq_of_cmp x y, list_eq xs ys)

  pub list_gt : (xs ys : List A) → list_cmp xs ys ≡ Ordering.lt → list_cmp ys xs ≡ Ordering.gt
  unfolding list_cmp
  list_gt [] [] h = cc
  list_gt [] (y ∷ ys) h = refl
  list_gt (x ∷ xs) [] h = cc
  list_gt (x ∷ xs) (y ∷ ys) h =
      ground (arith, o.cmp_gt x y, o.eq_of_cmp x y, o.cmp_refl y, list_gt xs ys)

  pub list_lt : (xs ys : List A) → list_cmp xs ys ≡ Ordering.gt → list_cmp ys xs ≡ Ordering.lt
  unfolding list_cmp
  list_lt [] [] h = cc
  list_lt [] (y ∷ ys) h = cc
  list_lt (x ∷ xs) [] h = refl
  list_lt (x ∷ xs) (y ∷ ys) h =
      ground (arith, o.cmp_lt x y, o.eq_of_cmp x y, o.cmp_refl y, list_lt xs ys)

  pub list_trans :
      (xs ys zs : List A)
      → list_cmp xs ys ≡ Ordering.lt
      → list_cmp ys zs ≡ Ordering.lt
      → list_cmp xs zs ≡ Ordering.lt
  unfolding list_cmp
  list_trans [] [] zs h k = cc
  list_trans [] (y ∷ ys) [] h k = cc
  list_trans [] (y ∷ ys) (z ∷ zs) h k = refl
  list_trans (x ∷ xs) [] zs h k = cc
  list_trans (x ∷ xs) (y ∷ ys) [] h k = cc
  list_trans (x ∷ xs) (y ∷ ys) (z ∷ zs) h k =
      ground (arith, o.cmp_trans x y z, o.eq_of_cmp x y, o.eq_of_cmp y z, list_trans xs ys zs)

  abbrev pub list_ord : Ord (List A)
  list_ord = record {
    cmp = list_cmp;
    cmp_refl = list_refl;
    eq_of_cmp = list_eq;
    cmp_gt = list_gt;
    cmp_lt = list_lt;
    cmp_trans = list_trans;
  }

-- The order of a type by an injective key.
module _ {ℓ κ} {A : Type ℓ} {B : Type κ} (o : Ord B) (key : A → B) where
  abbrev pub key_ord : ((a b : A) → key a ≡ key b → a ≡ b) → Ord A
  key_ord injective = record {
    cmp = λ a b. o.cmp (key a) (key b);
    cmp_refl = λ a. o.cmp_refl (key a);
    eq_of_cmp = λ a b h. injective a b (o.eq_of_cmp (key a) (key b) h);
    cmp_gt = λ a b. o.cmp_gt (key a) (key b);
    cmp_lt = λ a b. o.cmp_lt (key a) (key b);
    cmp_trans = λ a b c. o.cmp_trans (key a) (key b) (key c);
  }

module _ {ℓ} {A : Type ℓ} (o : Ord A) where
  -- Whether two values are equal.
  pub eq_cases : (i k : A) → (i ≡ k) ⊎ (¬ (o.cmp i k ≡ Ordering.eq))
  eq_cases i k = elim (Ordering-cases (o.cmp i k)) [
    | inl e ↦ inr (λ h. cc)
    | inr (inl e) ↦ inl (o.eq_of_cmp i k e)
    | inr (inr e) ↦ inr (λ h. cc)
  ]

  -- `if b > a { b } else { a }`
  unfoldable pub greater : A → A → A
  greater a b = elim (o.cmp b a) [ Ordering.gt ↦ b | _ ↦ a ]

  pub greater_comm : (a b : A) → greater a b ≡ greater b a
  unfolding greater
  greater_comm a b = ground (arith, o.cmp_lt a b, o.cmp_gt a b, o.eq_of_cmp a b, o.cmp_refl a)

  pub greater_idem : (a : A) → greater a a ≡ a
  unfolding greater
  greater_idem a = ground (arith, o.cmp_refl a)

  pub greater_assoc : (a b c : A) → greater (greater a b) c ≡ greater a (greater b c)
  unfolding greater
  greater_assoc a b c = ground (
    arith,
    o.cmp_lt b a,
    o.cmp_gt a b,
    o.cmp_lt c b,
    o.cmp_gt b c,
    o.cmp_lt c a,
    o.cmp_gt a c,
    o.eq_of_cmp b a,
    o.eq_of_cmp c b,
    o.eq_of_cmp c a,
    o.cmp_trans a b c,
    o.cmp_trans c b a,
  )

  -- `std::cmp::min`: the first of equal ones
  unfoldable pub lesser : A → A → A
  lesser a b = elim (o.cmp a b) [ Ordering.gt ↦ b | _ ↦ a ]

  pub lesser_comm : (a b : A) → lesser a b ≡ lesser b a
  unfolding lesser
  lesser_comm a b = ground (arith, o.cmp_lt a b, o.cmp_gt a b, o.eq_of_cmp a b, o.cmp_refl a)

  pub lesser_idem : (a : A) → lesser a a ≡ a
  unfolding lesser
  lesser_idem a = ground (arith, o.cmp_refl a)

  pub lesser_assoc : (a b c : A) → lesser (lesser a b) c ≡ lesser a (lesser b c)
  unfolding lesser
  lesser_assoc a b c = ground (
    arith,
    o.cmp_lt a b,
    o.cmp_gt b a,
    o.cmp_lt b c,
    o.cmp_gt c b,
    o.cmp_lt a c,
    o.cmp_gt c a,
    o.eq_of_cmp a b,
    o.eq_of_cmp b c,
    o.eq_of_cmp a c,
    o.cmp_trans a b c,
    o.cmp_trans c b a,
  )
