-- ===== src/Store/Schemas.antt =====
-- The union of two schemas (merge.rs). The order of definitions is the parameter `defs`, as derived
-- for `AttributeDef`.
use ferratomic.Prelude.{Option, none, some, List, [], ◌∷◌, ◌++◌, Ordering}
use ferratomic.Prelude.Order.{Ord}
use ferratomic.Prelude.TreeMap.{TreeMap}
use ferratomic.Datom.Types.{Attribute}
use ferratomic.Tx.Schema.{AttributeDef, Schema, empty_schema, get_attribute, define}

pub record SchemaConflict : Type 0 where
  pub attribute : Attribute
  pub kept : AttributeDef
  pub discarded : AttributeDef

pub record SchemaMergeResult : Type 0 where
  pub schema : Schema
  pub conflicts : List SchemaConflict

abbrev pub push_conflict :
    Attribute → AttributeDef → AttributeDef → Schema → List SchemaConflict → SchemaMergeResult
push_conflict attr kept discarded schema conflicts = record {
  schema = schema;
  conflicts = conflicts ++ (record { attribute = attr; kept = kept; discarded = discarded } ∷ []);
}

module _ (defs : Ord AttributeDef) where
  -- One round of `merge_schemas`, from what the schema has for the attribute
  unfoldable pub merge_attribute :
      Attribute → AttributeDef → Option AttributeDef → SchemaMergeResult → SchemaMergeResult
  merge_attribute attr def none r = record r { schema = define attr def r.schema }
  merge_attribute attr def (some existing) r = elim (defs.cmp def existing) [
    | Ordering.eq ↦ r
    | Ordering.lt ↦ push_conflict attr def existing (define attr def r.schema) r.conflicts
    | Ordering.gt ↦ push_conflict attr existing def r.schema r.conflicts
  ]

  unfoldable pub merge_attributes :
      TreeMap Attribute AttributeDef → SchemaMergeResult → SchemaMergeResult
  merge_attributes [] r = r
  merge_attributes ((attr, def) ∷ attrs) r =
      merge_attributes attrs (merge_attribute attr def (get_attribute attr r.schema) r)

  unfoldable pub merge_schemas : Schema → Schema → SchemaMergeResult
  merge_schemas a b = merge_attributes (a ++ b) (record { schema = empty_schema; conflicts = [] })
