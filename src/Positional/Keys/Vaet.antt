-- ===== src/Positional/Keys/Vaet.antt =====
-- The VAET key of a datom and its order (ferratomic-index/src/keys.rs). The order of values is a
-- parameter.
use ferratomic.Prelude.{◌≡◌, ap, Ordering}
use ferratomic.Prelude.Order.{Ord, then_with, pair_ord, key_ord}
use ferratomic.Clock.TxId.{TxId, node_ord, tx_cmp, tx_ord}
use ferratomic.Datom.Types.{EntityId, Attribute, Value, Op, Datom}
use ferratomic.Positional.Interpolation.{op_cmp}
use ferratomic.Positional.Keys.Ops.{op_ord}

pub record VaetKey : Type 0 where
  pub value : Value
  pub attribute : Attribute
  pub entity : EntityId
  pub tx : TxId
  pub op : Op

abbrev pub from_datom : Datom → VaetKey
from_datom d = record {
  value = d.value;
  attribute = d.attribute;
  entity = d.entity;
  tx = d.tx;
  op = d.op;
}

abbrev pub cmp_datom : Ord Value → VaetKey → Datom → Ordering
cmp_datom values key d = then_with (values.cmp key.value d.value) (
    then_with (node_ord.cmp key.attribute d.attribute) (
      then_with (node_ord.cmp key.entity d.entity)
        (then_with (tx_cmp key.tx d.tx) (op_cmp key.op d.op))))

abbrev pub fields : VaetKey → Value × (Attribute × (EntityId × (TxId × Op)))
fields key = (key.value, (key.attribute, (key.entity, (key.tx, key.op))))

abbrev of_fields : Value × (Attribute × (EntityId × (TxId × Op))) → VaetKey
of_fields (first, (second, (third, (tx, op)))) = record {
  value = first;
  attribute = second;
  entity = third;
  tx = tx;
  op = op;
}

pub fields_injective : (a b : VaetKey) → fields a ≡ fields b → a ≡ b
fields_injective a b h = ap of_fields h

-- `#[derive(PartialOrd, Ord)]`
abbrev pub vaet_ord : Ord Value → Ord VaetKey
vaet_ord values =
    key_ord (pair_ord values (pair_ord node_ord (pair_ord node_ord (pair_ord tx_ord op_ord))))
      fields fields_injective
