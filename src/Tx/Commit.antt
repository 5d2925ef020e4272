-- ===== src/Tx/Commit.antt =====
-- The transaction builder, validation and commit (lib.rs, validate.rs, commit.rs).
use ferratomic.Prelude.{
  Bool, true, false, Option, none, some, List, [], ◌∷◌, ◌++◌, replicate, if◌then◌else◌,
}
use ferratomic.Prelude.Results.{Result, ok, err, ◌>>=◌}
use ferratomic.Clock.TxId.{NodeId, TxId, with_node}
use ferratomic.Datom.Types.{
  EntityId, Attribute, Op, assert, retract, Value, keyword, string, long, double, bool, instant,
  uuid, bytes, ref, big_int, big_dec, Datom,
}
use ferratomic.Tx.Schema.{ValueType, AttributeDef, Schema, get_attribute}

-- The errors, with the value and the type in place of their printed forms.
pub data TxValidationError : Type 0 where
  unknown_attribute : Attribute → TxValidationError
  schema_violation : Attribute → ValueType → Value → TxValidationError
  cardinality_violation : Attribute → TxValidationError

-- The typestate: a transaction that is being built, and one that is sealed.
pub record Building : Type 0 where
  pub node : NodeId
  pub datoms : List Datom

pub record Committed : Type 0 where
  pub node : NodeId
  pub datoms : List Datom

abbrev pub new_transaction : NodeId → Building
new_transaction node = record { node = node; datoms = [] }

abbrev placeholder_tx : TxId
placeholder_tx = with_node 0 0 (replicate 16 0)

abbrev push_datom : EntityId → Attribute → Value → Op → Building → Building
push_datom entity attribute value op t = record t {
  datoms =
      t.datoms
      ++ (record {
        entity = entity;
        attribute = attribute;
        value = value;
        tx = placeholder_tx;
        op = op;
      })
        ∷ [];
}

unfoldable pub assert_datom : EntityId → Attribute → Value → Building → Building
assert_datom entity attribute value t = push_datom entity attribute value assert t

unfoldable pub retract_datom : EntityId → Attribute → Value → Building → Building
retract_datom entity attribute value t = push_datom entity attribute value retract t

unfoldable pub value_matches_type : Value → ValueType → Bool
value_matches_type (keyword s) expected = elim expected [ ValueType.keyword ↦ true | _ ↦ false ]
value_matches_type (string s) expected = elim expected [ ValueType.string ↦ true | _ ↦ false ]
value_matches_type (long n) expected = elim expected [ ValueType.long ↦ true | _ ↦ false ]
value_matches_type (double f) expected = elim expected [ ValueType.double ↦ true | _ ↦ false ]
value_matches_type (bool b) expected = elim expected [ ValueType.boolean ↦ true | _ ↦ false ]
value_matches_type (instant n) expected = elim expected [ ValueType.instant ↦ true | _ ↦ false ]
value_matches_type (uuid u) expected = elim expected [ ValueType.uuid ↦ true | _ ↦ false ]
value_matches_type (bytes s) expected = elim expected [ ValueType.bytes ↦ true | _ ↦ false ]
value_matches_type (ref e) expected = elim expected [ ValueType.ref ↦ true | _ ↦ false ]
value_matches_type (big_int n) expected = elim expected [ ValueType.big_int ↦ true | _ ↦ false ]
value_matches_type (big_dec n) expected = elim expected [ ValueType.big_dec ↦ true | _ ↦ false ]

-- The body of the loop, for one datom and what the schema has for its attribute.
abbrev pub validate_datom : Datom → Option AttributeDef → Result TxValidationError (Unit {0})
validate_datom d none = err (unknown_attribute d.attribute)
validate_datom d (some def) =
    if value_matches_type d.value def.value_type
    then ok tt
    else err (schema_violation d.attribute def.value_type d.value)

unfoldable pub validate_datoms : List Datom → Schema → Result TxValidationError (Unit {0})
validate_datoms [] schema = ok tt
validate_datoms (d ∷ datoms) schema =
    validate_datom d (get_attribute d.attribute schema) >>= (λ _. validate_datoms datoms schema)

unfoldable pub commit : Building → Schema → Result TxValidationError Committed
commit t schema =
    validate_datoms t.datoms schema >>= (λ _. ok (record { node = t.node; datoms = t.datoms }))
