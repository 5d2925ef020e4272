-- ===== src/Store/Genesis.antt =====
-- The meta-schema of a new store (schema_evolution.rs, and genesis of store.rs).
use ferratomic.Prelude.{some, List, [], ◌∷◌, replicate}
use ferratomic.Prelude.Bytes.{Bytes}
use ferratomic.Prelude.Texts.{codes}
use ferratomic.Tx.Schema.{
  ValueType, keyword, string, boolean, ref, instant, bytes, one, many, lww, multi_value,
  AttributeDef, Schema, empty_schema, define,
}
use ferratomic.Store.Merge.{Parts, Store, positional, from_datoms}

abbrev lww_of : ValueType → Bytes → AttributeDef
lww_of value_type doc = record {
  value_type = value_type;
  cardinality = one;
  resolution_mode = lww;
  doc = some doc;
}

abbrev pub lww_kw : Bytes → AttributeDef
lww_kw doc = lww_of keyword doc

abbrev pub lww_str : Bytes → AttributeDef
lww_str doc = lww_of string doc

abbrev pub lww_bool : Bytes → AttributeDef
lww_bool doc = lww_of boolean doc

abbrev pub lww_ref : Bytes → AttributeDef
lww_ref doc = lww_of ref doc

abbrev pub lww_instant : Bytes → AttributeDef
lww_instant doc = lww_of instant doc

abbrev pub lww_bytes : Bytes → AttributeDef
lww_bytes doc = lww_of bytes doc

abbrev pub mv_ref_many : Bytes → AttributeDef
mv_ref_many doc = record {
  value_type = ref;
  cardinality = many;
  resolution_mode = multi_value;
  doc = some doc;
}

-- `schema.define(…)`, for each of the list in turn
abbrev pub define_each : List (Bytes × AttributeDef) → Schema → Schema
define_each [] schema = schema
define_each ((attribute, def) ∷ defs) schema = define_each defs (define attribute def schema)

abbrev pub meta_attributes : List (Bytes × AttributeDef)
meta_attributes =
    (codes "db/ident", lww_kw (codes "Attribute identity keyword"))
    ∷ (codes "db/valueType", lww_kw (codes "Declared value type"))
    ∷ (codes "db/cardinality", lww_kw (codes "Cardinality: one or many"))
    ∷ (codes "db/doc", lww_str (codes "Documentation string"))
    ∷ (codes "db/unique", lww_kw (codes "Uniqueness constraint"))
    ∷ (codes "db/isComponent", lww_bool (codes "Component ownership"))
    ∷ (codes "db/resolutionMode", lww_kw (codes "CRDT conflict resolution mode"))
    ∷ (codes "db/latticeOrder", lww_ref (codes "Reference to lattice definition"))
    ∷ (codes "db/lwwClock", lww_kw (codes "LWW clock source"))
    ∷ (codes "lattice/ident", lww_kw (codes "Lattice name"))
    ∷ (codes "lattice/elements", lww_str (codes "Ordered element list"))
    ∷ (codes "lattice/comparator", lww_str (codes "Comparison function"))
    ∷ (codes "lattice/bottom", lww_kw (codes "Least element"))
    ∷ (codes "lattice/top", lww_kw (codes "Greatest element"))
    ∷ []

unfoldable pub define_meta_schema : Schema → Schema
define_meta_schema schema = define_each meta_attributes schema

abbrev pub tx_attributes : List (Bytes × AttributeDef)
tx_attributes =
    (codes "tx/derivation-input", mv_ref_many (codes "Input datoms for derivation (D20, Phase 4d)"))
    ∷ (codes "tx/derivation-rule", lww_kw (codes "Rule that produced derivation (D20, Phase 4d)"))
    ∷ (codes "tx/derivation-source", lww_kw (codes "Source of derived datoms (D20)"))
    ∷ (codes "tx/origin", lww_ref (codes "Node that originated transaction"))
    ∷ (codes "tx/predecessor", mv_ref_many (codes "Causal predecessor entity refs (INV-FERR-061)"))
    ∷ (codes "tx/provenance", lww_kw (codes "Epistemic confidence level (INV-FERR-063)"))
    ∷ (codes "tx/rationale", lww_str (codes "Why this transaction exists"))
    ∷ (codes "tx/signature", lww_bytes (codes "Ed25519 signature bytes (INV-FERR-051)"))
    ∷ (codes "tx/signer", lww_bytes (codes "Ed25519 verifying key bytes (INV-FERR-051)"))
    ∷ (codes "tx/time", lww_instant (codes "Transaction wall-clock time"))
    ∷ (codes "tx/validation-override", lww_str (codes "Manual validation exemption"))
    ∷ []

unfoldable pub define_tx_schema : Schema → Schema
define_tx_schema schema = define_each tx_attributes schema

unfoldable pub genesis_schema : Schema
genesis_schema = define_tx_schema (define_meta_schema empty_schema)

module _ (p : Parts) where
  -- `Store::genesis`
  unfoldable pub genesis : Store p
  genesis = record {
    repr = positional (from_datoms p []);
    schema = genesis_schema;
    epoch = 0;
    genesis_node = replicate 16 0;
    live_causal = p.maps.causal.empty;
    live_set = p.maps.live.empty;
    schema_conflicts = [];
  }
