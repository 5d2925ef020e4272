-- ===== src/Db/Wire.antt =====
-- What is read back before it is trusted (ferratom/src/wire.rs).
use ferratomic.Prelude.{ℕ, Bool}
use ferratomic.Prelude.Bytes.{Bytes}
use ferratomic.Clock.TxId.{TxId}
use ferratomic.Datom.Types.{
  EntityId, Attribute, Op, Value, keyword, string, long, double, bool, instant, uuid, bytes, ref,
  big_int, big_dec, Datom,
}

pub record WireEntityId : Type 0 where
  pub as_bytes : Bytes

pub data WireValue : Type 0 where
  wire_keyword wire_string : Bytes → WireValue
  wire_long wire_double : ℕ → WireValue
  wire_bool : Bool → WireValue
  wire_instant : ℕ → WireValue
  wire_uuid wire_bytes : Bytes → WireValue
  wire_ref : WireEntityId → WireValue
  wire_big_int wire_big_dec : ℕ → WireValue

pub record WireDatom : Type 0 where
  pub entity : WireEntityId
  pub attribute : Attribute
  pub value : WireValue
  pub tx : TxId
  pub op : Op

unfoldable pub trusted_entity : WireEntityId → EntityId
trusted_entity e = e.as_bytes

unfoldable pub trusted_value : WireValue → Value
trusted_value (wire_keyword s) = keyword s
trusted_value (wire_string s) = string s
trusted_value (wire_long n) = long n
trusted_value (wire_double f) = double f
trusted_value (wire_bool b) = bool b
trusted_value (wire_instant ms) = instant ms
trusted_value (wire_uuid u) = uuid u
trusted_value (wire_bytes blob) = bytes blob
trusted_value (wire_ref e) = ref (trusted_entity e)
trusted_value (wire_big_int n) = big_int n
trusted_value (wire_big_dec n) = big_dec n

unfoldable pub into_trusted : WireDatom → Datom
into_trusted d = record {
  entity = trusted_entity d.entity;
  attribute = d.attribute;
  value = trusted_value d.value;
  tx = d.tx;
  op = d.op;
}
