-- ===== src/Examples/Commits.antt =====
-- Commits at concrete transactions.
use ferratomic.Prelude.{◌≡◌, refl, ◌⊎◌, none, [], ◌∷◌, replicate, All}
use ferratomic.Prelude.Results.{ok, err}
use ferratomic.Datom.Types.{keyword, long}
use ferratomic.Tx.Schema.{
  ValueType, Cardinality, ResolutionMode, Schema, define, empty_schema, get_attribute,
}
use ferratomic.Prelude.TreeMap.{insert, lookup}
use ferratomic.Prelude.Order.{list_cmp}
use ferratomic.Clock.TxId.{node_ord}
use ferratomic.Tx.Commit.{
  TxValidationError, schema_violation, Building, new_transaction, assert_datom, retract_datom,
  value_matches_type, validate_datoms, commit,
}
use ferratomic.Tx.Verdict.{IsTyped, Refusal, commit_verdict}

abbrev ages : Schema
ages =
    define (0x61 ∷ [])
      (record {
        value_type = ValueType.long;
        cardinality = Cardinality.one;
        resolution_mode = ResolutionMode.lww;
        doc = none;
      })
      empty_schema

-- The second datom has a value of the wrong type.
abbrev wrong : Building
wrong =
    retract_datom (replicate 32 2) (0x61 ∷ []) (keyword [])
      (assert_datom (replicate 32 1) (0x61 ∷ []) (long 40) (new_transaction (replicate 16 9)))

wrong_refused : commit wrong ages ≡ err (schema_violation (0x61 ∷ []) ValueType.long (keyword []))
unfolding commit validate_datoms value_matches_type get_attribute define assert_datom retract_datom
    insert lookup node_ord list_cmp
wrong_refused = refl

commit_verdict_example :
    ((commit wrong ages ≡ ok (record { node = wrong.node; datoms = wrong.datoms }))
      × All (IsTyped ages) wrong.datoms)
    ⊎ ((e : TxValidationError) × (commit wrong ages ≡ err e) × Refusal ages wrong.datoms e)
commit_verdict_example = commit_verdict wrong ages
