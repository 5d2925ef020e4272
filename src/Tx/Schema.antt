-- ===== src/Tx/Schema.antt =====
-- The schema (ferratom/src/schema.rs).
use ferratomic.Prelude.{Option, []}
use ferratomic.Prelude.Bytes.{Bytes}
use ferratomic.Prelude.TreeMap
use ferratomic.Prelude.TreeMap.{TreeMap}
use ferratomic.Clock.TxId.{node_ord}
use ferratomic.Datom.Types.{Attribute}

pub data ValueType : Type 0 where
  keyword string long double boolean instant uuid bytes ref big_int big_dec : ValueType

pub data Cardinality : Type 0 where
  one many : Cardinality

pub data ResolutionMode : Type 0 where
  lww multi_value : ResolutionMode

pub record AttributeDef : Type 0 where
  pub value_type : ValueType
  pub cardinality : Cardinality
  pub resolution_mode : ResolutionMode
  pub doc : Option Bytes

-- A `BTreeMap`; attribute names compare byte by byte.
abbrev pub Schema : Type 0
Schema = TreeMap Attribute AttributeDef

abbrev pub empty_schema : Schema
empty_schema = []

unfoldable pub get_attribute : Attribute → Schema → Option AttributeDef
get_attribute a schema = TreeMap.lookup node_ord a schema

unfoldable pub define : Attribute → AttributeDef → Schema → Schema
define a def schema = TreeMap.insert node_ord a def schema
