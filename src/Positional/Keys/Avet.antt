-- ===== src/Positional/Keys/Avet.antt =====
-- The AVET key of a datom and its order (ferratomic-index/src/keys.rs). The order of values is a
-- parameter.
use ferratomic.Prelude.{◌≡◌, ap, Ordering}
use ferratomic.Prelude.Order.{Ord, then_with, pair_ord, key_ord}
use ferratomic.Clock.TxId.{TxId, node_ord, tx_cmp, tx_ord}
use ferratomic.Datom.Types.{EntityId, Attribute, Value, Op, Datom}
use ferratomic.Positional.Interpolation.{op_cmp}
use ferratomic.Positional.Keys.Ops.{op_ord}

pub record AvetKey : Type 0 where
  pub attribute : Attribute
  pub value : Value
  pub entity : EntityId
  pub tx : TxId
  pub op : Op

abbrev pub from_datom : Datom → AvetKey
from_datom d = record {
  attribute = d.attribute;
  value = d.value;
  entity = d.entity;
  tx = d.tx;
  op = d.op;
}

abbrev pub cmp_datom : Ord Value → AvetKey → Datom → Ordering
cmp_datom values key d = then_with (node_ord.cmp key.attribute d.attribute) (
    then_with (values.cmp key.value d.value) (
      then_with (node_ord.cmp key.entity d.entity)
        (then_with (tx_cmp key.tx d.tx) (op_cmp key.op d.op))))

abbrev pub fields : AvetKey → Attribute × (Value × (EntityId × (TxId × Op)))
fields key = (key.attribute, (key.value, (key.entity, (key.tx, key.op))))

abbrev of_fields : Attribute × (Value × (EntityId × (TxId × Op))) → AvetKey
of_fields (first, (second, (third, (tx, op)))) = record {
  attribute = first;
  value = second;
  entity = third;
  tx = tx;
  op = op;
}

pub fields_injective : (a b : AvetKey) → fields a ≡ fields b → a ≡ b
fields_injective a b h = ap of_fields h

-- `#[derive(PartialOrd, Ord)]`
abbrev pub avet_ord : Ord Value → Ord AvetKey
avet_ord values =
    key_ord (pair_ord node_ord (pair_ord values (pair_ord node_ord (pair_ord tx_ord op_ord))))
      fields fields_injective
