-- ===== src/Store/Apply.antt =====
-- Applying transactions and replaying the log (apply.rs, and promote and demote of store.rs). What
-- `transact` is not given as datoms it makes: stamps and metadata. BLAKE3 is `from_content`.
use ferratomic.Prelude.{
  ℕ, ◌+◌, ◌-◌, ◌^◌, min, Option, none, some, List, [], ◌∷◌, ◌++◌, map, leb, if◌then◌else◌,
}
use ferratomic.Prelude.Bytes.{Bytes, to_le_bytes}
use ferratomic.Prelude.Results.{Result, ok, err}
use ferratomic.Prelude.Texts.{codes}
use ferratomic.Prelude.TreeMap
use ferratomic.Prelude.TreeMap.{TreeMap}
use ferratomic.Clock.TxId.{NodeId, TxId}
use ferratomic.Clock.Frontier.{Frontier}
use ferratomic.Datom.Types.{EntityId, Attribute, Value, keyword, bytes, instant, ref, assert, Datom}
use ferratomic.Positional.Merge.{merge_sort_dedup}
use ferratomic.Positional.MergeLaws.{entries}
use ferratomic.Prolly.Boundary.{is_empty}
use ferratomic.Store.Causal.{live_apply_all}
use ferratomic.Store.Evolution.{ApplyError, empty_transaction, epoch_overflow, Visit, evolve_schema}
use ferratomic.Store.Merge.{
  Parts, StoreRepr, positional, ord_map, PositionalStore, from_sorted_canonical, from_datoms, Store,
  sort_unstable, dedup,
}
use ferratomic.Tx.Commit.{Committed}

pub data ProvenanceType : Type 0 where
  hypothesized inferred derived observed : ProvenanceType

unfoldable pub provenance_keyword : ProvenanceType → Bytes
provenance_keyword hypothesized = codes "provenance/hypothesized"
provenance_keyword inferred = codes "provenance/inferred"
provenance_keyword derived = codes "provenance/derived"
provenance_keyword observed = codes "provenance/observed"

-- `TransactContext`, without the fingerprint, which only the signing reads; a signature and its
-- signer are their bytes.
pub record TransactContext : Type 0 where
  pub tx_id : TxId
  pub frontier : Option Frontier
  pub signing : Option (Bytes × Bytes)
  pub provenance : ProvenanceType

pub record TxReceipt : Type 0 where
  pub epoch : ℕ
  pub datoms : List Datom

abbrev pub stamp : TxId → Datom → Datom
stamp tx d = record d { tx = tx }

unfoldable pub stamp_datoms : List Datom → TxId → List Datom
stamp_datoms datoms tx = map (stamp tx) datoms

unfoldable pub tx_id_canonical_bytes : TxId → Bytes
tx_id_canonical_bytes tx = to_le_bytes 8 tx.physical ++ (to_le_bytes 4 tx.logical ++ tx.node)

-- A metadata datom is asserted of the transaction's entity.
abbrev pub metadata : EntityId → TxId → Attribute → Value → Datom
metadata tx_entity tx attribute value = record {
  entity = tx_entity;
  attribute = attribute;
  value = value;
  tx = tx;
  op = assert;
}

module _ (from_content : Bytes → EntityId) where
  unfoldable pub tx_entity_from_txid : TxId → EntityId
  tx_entity_from_txid tx = from_content (tx_id_canonical_bytes tx)

  unfoldable pub create_tx_metadata : EntityId → NodeId → TxId → List Datom
  create_tx_metadata tx_entity node tx =
      metadata tx_entity tx (codes "tx/time") (instant (min tx.physical (2 ^ 63 - 1)))
      ∷ metadata tx_entity tx (codes "tx/origin") (ref (from_content node))
      ∷ []

  unfoldable pub predecessors : EntityId → TxId → Frontier → List Datom
  predecessors tx_entity tx [] = []
  predecessors tx_entity tx ((node, pred_tx) ∷ frontier) =
      metadata tx_entity tx (codes "tx/predecessor") (ref (tx_entity_from_txid pred_tx))
      ∷ predecessors tx_entity tx frontier

  abbrev pub predecessors_of : EntityId → TxId → Option Frontier → List Datom
  predecessors_of tx_entity tx none = []
  predecessors_of tx_entity tx (some frontier) = predecessors tx_entity tx frontier

  abbrev pub signatures : EntityId → TxId → Option (Bytes × Bytes) → List Datom
  signatures tx_entity tx none = []
  signatures tx_entity tx (some (sig, signer)) =
      metadata tx_entity tx (codes "tx/signature") (bytes sig)
      ∷ metadata tx_entity tx (codes "tx/signer") (bytes signer)
      ∷ []

  unfoldable pub create_federation_metadata :
      EntityId → TxId → Option Frontier → Option (Bytes × Bytes) → ProvenanceType → List Datom
  create_federation_metadata tx_entity tx frontier signing provenance =
      predecessors_of tx_entity tx frontier
      ++ (metadata tx_entity tx (codes "tx/provenance") (keyword (provenance_keyword provenance))
          ∷ signatures tx_entity tx signing)

  -- What `transact` stores for a transaction of the node.
  unfoldable pub stamped : NodeId → List Datom → TransactContext → List Datom
  stamped node datoms ctx =
      let tx_entity = tx_entity_from_txid ctx.tx_id in
      stamp_datoms datoms ctx.tx_id
      ++ (create_tx_metadata tx_entity node ctx.tx_id
          ++ create_federation_metadata tx_entity ctx.tx_id ctx.frontier ctx.signing ctx.provenance)

  abbrev pub batch_context : TxId → TransactContext
  batch_context tx = record { tx_id = tx; frontier = none; signing = none; provenance = observed }

  unfoldable pub stamp_and_append_metadata : List Datom → TxId → List Datom
  stamp_and_append_metadata datoms tx =
      let tx_entity = tx_entity_from_txid tx in
      stamp_datoms datoms tx
      ++ (create_tx_metadata tx_entity tx.node tx
          ++ create_federation_metadata tx_entity tx none none observed)

module _ (p : Parts) where
  -- `OrdSet::insert`, on what the set yields
  abbrev pub elements : TreeMap Datom (Unit {0}) → List Datom
  elements [] = []
  elements ((d, u) ∷ m) = d ∷ elements m

  unfoldable pub set_insert : Datom → List Datom → List Datom
  set_insert d set = elements (TreeMap.insert p.datom_order d tt (entries p.datom_order set))

  unfoldable pub collect : List Datom → List Datom → List Datom
  collect set [] = set
  collect set (d ∷ datoms) = collect (set_insert d set) datoms

  abbrev pub promoted : StoreRepr → StoreRepr
  promoted (positional ps) = ord_map (collect [] ps.canonical)
  promoted (ord_map set) = ord_map set

  unfoldable pub promote : Store p → Store p
  promote s = record s { repr = promoted s.repr }

  abbrev pub demoted : StoreRepr → StoreRepr
  demoted (positional ps) = positional ps
  demoted (ord_map set) = positional (from_datoms p set)

  unfoldable pub demote : Store p → Store p
  demote s = record s { repr = demoted s.repr }

  -- `self.live_apply(datom)`, for each datom in turn
  abbrev pub live_applied : List Datom → Store p → Store p
  live_applied datoms s =
      let state = live_apply_all p.maps datoms (s.live_causal, s.live_set) in
      record s { live_causal = state.0; live_set = state.1 }

  -- `if let StoreRepr::OrdMap`: nothing is inserted into a positional store.
  abbrev pub insert_repr : Datom → StoreRepr → StoreRepr
  insert_repr d (positional ps) = positional ps
  insert_repr d (ord_map set) = ord_map (set_insert d set)

  -- The loop body of `transact`, `batch_replay` and `batch_splice_transact` on an `OrdMap` store
  unfoldable pub add_datom : Datom → Store p → Store p
  add_datom d s = live_applied (d ∷ []) (record s { repr = insert_repr d s.repr })

  unfoldable pub add_datoms : List Datom → Store p → Store p
  add_datoms [] s = s
  add_datoms (d ∷ datoms) s = add_datoms datoms (add_datom d s)

  unfoldable pub insert : Datom → Store p → Store p
  insert d s = add_datom d (promote s)

  unfoldable pub insert_all : List Datom → Store p → Store p
  insert_all [] s = s
  insert_all (d ∷ datoms) s = insert_all datoms (insert d s)

  unfoldable pub splice : List Datom → PositionalStore → Store p → Store p
  splice new ps s =
      let sorted_new = dedup p.datom_order (sort_unstable p.datom_order new) in
      let merged = merge_sort_dedup p.datom_order ps.canonical sorted_new in
      live_applied new (record s { repr = positional (from_sorted_canonical p merged) })

  -- How `transact` and `batch_splice_transact` store the datoms, by the representation
  unfoldable pub write : List Datom → Store p → Store p
  write new s = elim s.repr [
    | positional ps ↦ splice new ps s
    | ord_map set ↦ demote (add_datoms new s)
  ]

module _ (p : Parts) (visit : Visit) where
  -- `evolve_schema(&mut self.schema, …)?`
  abbrev pub evolve : List Datom → Store p → Store p × Result ApplyError (Unit {0})
  evolve datoms s =
      let evolved = evolve_schema visit s.schema datoms in
      (record s { schema = evolved.0 }, evolved.1)

  unfoldable pub replay_entry : ℕ → List Datom → Store p → Store p × Result ApplyError (Unit {0})
  replay_entry epoch datoms s = evolve datoms (record (insert_all p datoms s) { epoch = epoch })

  abbrev pub and_then {ℓ κ} :
      {A : Type ℓ} {B : Type κ}
      → (A → Store p → Store p × Result ApplyError B)
      → Store p × Result ApplyError A
      → Store p × Result ApplyError B
  and_then go_on (s, err e) = (s, err e)
  and_then go_on (s, ok a) = go_on a s

  -- The loop of `batch_replay`
  unfoldable pub replay_loop :
      List (ℕ × List Datom) → Store p → Store p × Result ApplyError (Unit {0})
  replay_loop [] s = (s, ok tt)
  replay_loop ((epoch, datoms) ∷ log) s =
      and_then (λ u t. replay_loop log t)
        (evolve datoms (record (add_datoms p datoms s) { epoch = epoch }))

  unfoldable pub batch_replay :
      List (ℕ × List Datom) → Store p → Store p × Result ApplyError (Unit {0})
  batch_replay log s =
      if is_empty log
      then (s, ok tt)
      else and_then (λ u t. (demote p t, ok tt)) (replay_loop log (promote p s))

  -- `self.epoch.checked_add(1)`
  abbrev pub advance_epoch : Store p → Store p × Result ApplyError (Unit {0})
  advance_epoch s =
      if leb (2 ^ 64 - 1) s.epoch
      then (s, err epoch_overflow)
      else (record s { epoch = s.epoch + 1 }, ok tt)

  -- A transaction up to the schema: the checks, the epoch, the datoms as stamped, the evolution.
  unfoldable pub stage : List Datom → List Datom → Store p → Store p × Result ApplyError TxReceipt
  stage datoms all_datoms s =
      if is_empty datoms
      then (s, err empty_transaction)
      else and_then
          (λ u t.
            and_then (λ v r. (r, ok (record { epoch = r.epoch; datoms = all_datoms })))
              (evolve all_datoms t))
          (advance_epoch s)

  module _ (from_content : Bytes → EntityId) where
    unfoldable pub transact :
        Committed → TransactContext → Store p → Store p × Result ApplyError TxReceipt
    transact transaction ctx s =
        and_then (λ (receipt : TxReceipt) t. (write p receipt.datoms t, ok receipt))
          (stage transaction.datoms (stamped from_content transaction.node transaction.datoms ctx)
            s)

    abbrev pub push_receipt :
        TxReceipt
        → Store p × Result ApplyError (List TxReceipt)
        → Store p × Result ApplyError (List TxReceipt)
    push_receipt receipt (s, err e) = (s, err e)
    push_receipt receipt (s, ok receipts) = (s, ok (receipt ∷ receipts))

    unfoldable pub stage_batches :
        List (List Datom × TxId) → Store p → Store p × Result ApplyError (List TxReceipt)
    stage_batches [] s = (s, ok [])
    stage_batches ((datoms, tx) ∷ batches) s =
        and_then (λ receipt t. push_receipt receipt (stage_batches batches t))
          (stage datoms (stamp_and_append_metadata from_content datoms tx) s)

    unfoldable pub all_new : List TxReceipt → List Datom
    all_new [] = []
    all_new (receipt ∷ receipts) = receipt.datoms ++ all_new receipts

    unfoldable pub batch_splice_transact :
        List (List Datom × TxId) → Store p → Store p × Result ApplyError (List TxReceipt)
    batch_splice_transact batches s =
        if is_empty batches
        then (s, ok [])
        else and_then (λ receipts t. (write p (all_new receipts) t, ok receipts))
            (stage_batches batches s)
