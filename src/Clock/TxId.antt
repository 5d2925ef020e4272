-- ===== src/Clock/TxId.antt =====
-- Transaction identifiers (ferratom-clock/src/txid.rs). A `NodeId` is its sixteen bytes.
use ferratomic.Prelude.{ℕ, ◌≡◌, List, compare, Ordering, arith}
use ferratomic.Prelude.Order.{Ord, then_with, nat_ord, pair_ord, list_ord}

abbrev pub NodeId : Type 0
NodeId = List ℕ

-- Derived `Ord`: byte by byte.
unfoldable pub node_ord : Ord NodeId
node_ord = list_ord nat_ord

pub record TxId : Type 0 where
  pub physical : ℕ
  pub logical : ℕ
  pub node : NodeId

-- `TxId::with_node`
abbrev pub with_node : ℕ → ℕ → NodeId → TxId
with_node physical logical node = record { physical = physical; logical = logical; node = node }

-- `impl Ord for TxId`
unfoldable pub tx_cmp : TxId → TxId → Ordering
tx_cmp a b =
    then_with (compare a.physical b.physical)
      (then_with (compare a.logical b.logical) (node_ord.cmp a.node b.node))

infix 50 ◌⊏◌
abbrev pub ◌⊏◌ : TxId → TxId → Type 0
◌⊏◌ a b = tx_cmp a b ≡ Ordering.lt

abbrev fields : Ord (ℕ × (ℕ × NodeId))
fields = pair_ord nat_ord (pair_ord nat_ord node_ord)

abbrev key : TxId → ℕ × (ℕ × NodeId)
key t = (t.physical, (t.logical, t.node))

pub tx_refl : (a : TxId) → tx_cmp a a ≡ Ordering.eq
unfolding tx_cmp
tx_refl a = fields.cmp_refl (key a)

pub tx_eq : (a b : TxId) → tx_cmp a b ≡ Ordering.eq → a ≡ b
unfolding tx_cmp
tx_eq a b h = ground (arith, fields.eq_of_cmp (key a) (key b) h)

pub tx_gt : (a b : TxId) → tx_cmp a b ≡ Ordering.lt → tx_cmp b a ≡ Ordering.gt
unfolding tx_cmp
tx_gt a b = fields.cmp_gt (key a) (key b)

pub tx_lt : (a b : TxId) → tx_cmp a b ≡ Ordering.gt → tx_cmp b a ≡ Ordering.lt
unfolding tx_cmp
tx_lt a b = fields.cmp_lt (key a) (key b)

pub tx_trans : (a b c : TxId) → a ⊏ b → b ⊏ c → a ⊏ c
unfolding tx_cmp
tx_trans a b c = fields.cmp_trans (key a) (key b) (key c)

abbrev pub tx_ord : Ord TxId
tx_ord = record {
  cmp = tx_cmp;
  cmp_refl = tx_refl;
  eq_of_cmp = tx_eq;
  cmp_gt = tx_gt;
  cmp_lt = tx_lt;
  cmp_trans = tx_trans;
}
