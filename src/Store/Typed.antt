-- ===== src/Store/Typed.antt =====
-- The datoms of a transaction against the schema (apply.rs, schema_evolution.rs, INV-FERR-009).
use ferratomic.Prelude.{◌≡◌, refl, Option, none, some, List, [], ◌∷◌, All, All-append}
use ferratomic.Prelude.Bytes.{Bytes}
use ferratomic.Prelude.Order.{list_cmp}
use ferratomic.Prelude.Texts.{codes}
use ferratomic.Prelude.TreeMap
use ferratomic.Clock.TxId.{NodeId, node_ord, TxId}
use ferratomic.Clock.Frontier.{Frontier}
use ferratomic.Datom.Types.{EntityId, Attribute, Datom}
use ferratomic.Tx.Schema.{AttributeDef, Schema, get_attribute, define}
use ferratomic.Tx.Verdict.{IsTyped}
use ferratomic.Store.Genesis.{
  genesis_schema, define_meta_schema, define_tx_schema, lww_kw, lww_bytes, lww_instant, lww_ref,
  mv_ref_many,
}
use ferratomic.Store.Apply.{
  stamp_datoms, create_tx_metadata, predecessors, predecessors_of, signatures,
  create_federation_metadata, TransactContext, stamped, tx_entity_from_txid,
}

-- The definitions that a new store has are still there.
abbrev pub KeepsGenesis : Schema → Type 0
KeepsGenesis schema =
    (a : Attribute) (def : AttributeDef)
    → get_attribute a genesis_schema ≡ some def
    → get_attribute a schema ≡ some def

provenance_def :
    get_attribute (codes "tx/provenance") genesis_schema
    ≡ some (lww_kw (codes "Epistemic confidence level (INV-FERR-063)"))
unfolding get_attribute genesis_schema define_meta_schema define_tx_schema define TreeMap.lookup
    TreeMap.insert node_ord list_cmp
provenance_def = refl

time_def :
    get_attribute (codes "tx/time") genesis_schema
    ≡ some (lww_instant (codes "Transaction wall-clock time"))
unfolding get_attribute genesis_schema define_meta_schema define_tx_schema define TreeMap.lookup
    TreeMap.insert node_ord list_cmp
time_def = refl

origin_def :
    get_attribute (codes "tx/origin") genesis_schema
    ≡ some (lww_ref (codes "Node that originated transaction"))
unfolding get_attribute genesis_schema define_meta_schema define_tx_schema define TreeMap.lookup
    TreeMap.insert node_ord list_cmp
origin_def = refl

predecessor_def :
    get_attribute (codes "tx/predecessor") genesis_schema
    ≡ some (mv_ref_many (codes "Causal predecessor entity refs (INV-FERR-061)"))
unfolding get_attribute genesis_schema define_meta_schema define_tx_schema define TreeMap.lookup
    TreeMap.insert node_ord list_cmp
predecessor_def = refl

signature_def :
    get_attribute (codes "tx/signature") genesis_schema
    ≡ some (lww_bytes (codes "Ed25519 signature bytes (INV-FERR-051)"))
unfolding get_attribute genesis_schema define_meta_schema define_tx_schema define TreeMap.lookup
    TreeMap.insert node_ord list_cmp
signature_def = refl

signer_def :
    get_attribute (codes "tx/signer") genesis_schema
    ≡ some (lww_bytes (codes "Ed25519 verifying key bytes (INV-FERR-051)"))
unfolding get_attribute genesis_schema define_meta_schema define_tx_schema define TreeMap.lookup
    TreeMap.insert node_ord list_cmp
signer_def = refl

module _ (from_content : Bytes → EntityId) (schema : Schema) (keeps : KeepsGenesis schema) where
  create_tx_metadata-IsTyped :
      (e : EntityId) (node : NodeId) (tx : TxId)
      → All (IsTyped schema) (create_tx_metadata from_content e node tx)
  unfolding create_tx_metadata
  create_tx_metadata-IsTyped e node tx = (
    (lww_instant (codes "Transaction wall-clock time"), keeps _ _ time_def, refl),
    ((lww_ref (codes "Node that originated transaction"), keeps _ _ origin_def, refl), tt),
  )

  predecessors-IsTyped :
      (e : EntityId) (tx : TxId) (frontier : Frontier)
      → All (IsTyped schema) (predecessors from_content e tx frontier)
  unfolding predecessors
  predecessors-IsTyped e tx [] = tt
  predecessors-IsTyped e tx ((node, pred) ∷ frontier) = (
    (
      mv_ref_many (codes "Causal predecessor entity refs (INV-FERR-061)"),
      keeps _ _ predecessor_def,
      refl,
    ),
    predecessors-IsTyped e tx frontier,
  )

  predecessors_of-IsTyped :
      (e : EntityId) (tx : TxId) (frontier : Option Frontier)
      → All (IsTyped schema) (predecessors_of from_content e tx frontier)
  predecessors_of-IsTyped e tx none = tt
  predecessors_of-IsTyped e tx (some frontier) = predecessors-IsTyped e tx frontier

  signatures-IsTyped :
      (e : EntityId) (tx : TxId) (signing : Option (Bytes × Bytes))
      → All (IsTyped schema) (signatures from_content e tx signing)
  signatures-IsTyped e tx none = tt
  signatures-IsTyped e tx (some (sig, signer)) = (
    (lww_bytes (codes "Ed25519 signature bytes (INV-FERR-051)"), keeps _ _ signature_def, refl),
    (
      (lww_bytes (codes "Ed25519 verifying key bytes (INV-FERR-051)"), keeps _ _ signer_def, refl),
      tt,
    ),
  )

  stamp_datoms-IsTyped :
      (datoms : List Datom) (tx : TxId)
      → All (IsTyped schema) datoms
      → All (IsTyped schema) (stamp_datoms datoms tx)
  unfolding stamp_datoms
  stamp_datoms-IsTyped [] tx h = tt
  stamp_datoms-IsTyped (d ∷ datoms) tx (t, h) = (t, stamp_datoms-IsTyped datoms tx h)

  -- All that a transaction stores has an attribute that the schema knows and a value of its type,
  -- the metadata included, if its datoms had when it was committed and the schema still has the
  -- definitions of a new store.
  pub stamped-IsTyped :
      (node : NodeId) (datoms : List Datom) (ctx : TransactContext)
      → All (IsTyped schema) datoms
      → All (IsTyped schema) (stamped from_content node datoms ctx)
  unfolding stamped create_federation_metadata
  stamped-IsTyped node datoms ctx h =
      let e : EntityId = tx_entity_from_txid from_content ctx.tx_id in
      All-append (IsTyped schema) _ _ (stamp_datoms-IsTyped datoms ctx.tx_id h) (
        All-append (IsTyped schema) _ _ (create_tx_metadata-IsTyped e node ctx.tx_id) (
          All-append (IsTyped schema) _ _ (predecessors_of-IsTyped e ctx.tx_id ctx.frontier) (
            (
              lww_kw (codes "Epistemic confidence level (INV-FERR-063)"),
              keeps _ _ provenance_def,
              refl,
            ),
            signatures-IsTyped e ctx.tx_id ctx.signing,
          )))
