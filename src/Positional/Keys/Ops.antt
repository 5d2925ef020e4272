-- ===== src/Positional/Keys/Ops.antt =====
-- The derived order of operations, and orders the other way round.
use ferratomic.Prelude.{◌≡◌, refl, Ordering, Ordering-cases, inl, inr}
use ferratomic.Prelude.Order.{Ord}
use ferratomic.Datom.Types.{Op, assert, retract}
use ferratomic.Positional.Interpolation.{op_cmp, reverse}

pub op_refl : (a : Op) → op_cmp a a ≡ Ordering.eq
op_refl assert = refl
op_refl retract = refl

pub op_eq : (a b : Op) → op_cmp a b ≡ Ordering.eq → a ≡ b
op_eq assert assert h = refl
op_eq assert retract h = cc
op_eq retract assert h = cc
op_eq retract retract h = refl

pub op_gt : (a b : Op) → op_cmp a b ≡ Ordering.lt → op_cmp b a ≡ Ordering.gt
op_gt assert assert h = cc
op_gt assert retract h = refl
op_gt retract assert h = cc
op_gt retract retract h = cc

pub op_lt : (a b : Op) → op_cmp a b ≡ Ordering.gt → op_cmp b a ≡ Ordering.lt
op_lt assert assert h = cc
op_lt assert retract h = cc
op_lt retract assert h = refl
op_lt retract retract h = cc

pub op_trans :
    (a b c : Op) → op_cmp a b ≡ Ordering.lt → op_cmp b c ≡ Ordering.lt → op_cmp a c ≡ Ordering.lt
op_trans assert assert c h k = cc
op_trans assert retract assert h k = cc
op_trans assert retract retract h k = refl
op_trans retract assert c h k = cc
op_trans retract retract c h k = cc

abbrev pub op_ord : Ord Op
op_ord = record {
  cmp = op_cmp;
  cmp_refl = op_refl;
  eq_of_cmp = op_eq;
  cmp_gt = op_gt;
  cmp_lt = op_lt;
  cmp_trans = op_trans;
}

pub reverse-cmp {ℓ} : {A : Type ℓ} (o : Ord A) (a b : A) → reverse (o.cmp a b) ≡ o.cmp b a
reverse-cmp o a b = elim (Ordering-cases (o.cmp a b)) [
  | inl e ↦ rw (e, o.cmp_gt a b e) refl
  | inr (inl e) ↦ rw (e, o.eq_of_cmp a b e, o.cmp_refl b) refl
  | inr (inr e) ↦ rw (e, o.cmp_lt a b e) refl
]
