-- ===== src/Db/Signing.antt =====
-- Signing transactions (ferratomic-core/src/signing.rs, and transact_signed of db/transact.rs).
-- BLAKE3 is the hasher; Ed25519 is `Keys`, with the documented law that what is signed verifies.
use ferratomic.Prelude.{
  ℕ, zero, suc, ◌*◌, ◌≡◌, Bool, true, Option, some, List, [], ◌∷◌, if◌then◌else◌, take, drop,
}
use ferratomic.Prelude.Bytes.{Bytes}
use ferratomic.Prelude.Order.{Ord}
use ferratomic.Prelude.Results.{Result, ok, err}
use ferratomic.Prelude.Texts.{codes}
use ferratomic.Clock.TxId.{node_ord, TxId}
use ferratomic.Clock.Hybrid.{tick}
use ferratomic.Clock.Frontier.{Frontier}
use ferratomic.Datom.Types.{EntityId, Datom}
use ferratomic.Datom.Hash.{Hasher, hash_signing_fields}
use ferratomic.Filter.{starts_with}
use ferratomic.Positional.ChunkFingerprints.{Hash, zero_hash}
use ferratomic.Store.Evolution.{Visit}
use ferratomic.Store.Merge.{Parts, StoreRepr, positional, ord_map, sort_unstable}
use ferratomic.Store.Apply.{TxReceipt, tx_id_canonical_bytes, tx_entity_from_txid}
use ferratomic.Tx.Commit.{Committed}
use ferratomic.Db.State.{DbError, Calls, Database, ticked}

pub record SigningComponents : Type 0 where
  pub datoms : List Datom
  pub tx_id : TxId
  pub predecessor_entity_ids : List EntityId
  pub store_fingerprint : Bytes

-- `ed25519_dalek`: `is_key` says which bytes are a public key.
pub record Keys : Type 1 where
  pub SigningKey : Type 0
  pub verifying_key : SigningKey → Bytes
  pub sign : SigningKey → Bytes → Bytes
  pub is_key : Bytes → Bool
  pub verify : Bytes → Bytes → Bytes → Bool
  pub is_key-verifying_key : (k : SigningKey) → is_key (verifying_key k) ≡ true
  pub verify-sign :
      (k : SigningKey) (message : Bytes) → verify (verifying_key k) message (sign k message) ≡ true

pub data SigningError : Type 0 where
  invalid_key verification_failed : SigningError

-- The datoms whose attribute does not begin with `tx/`
unfoldable pub user_datoms : List Datom → List Datom
user_datoms [] = []
user_datoms (d ∷ datoms) =
    let rest = user_datoms datoms in
    if starts_with d.attribute (codes "tx/") then rest else d ∷ rest

module _ {ℓ} {H : Type ℓ} (blake : Hasher H) (order : Ord Datom) where
  unfoldable pub hash_datoms : List Datom → H → H
  hash_datoms [] h = h
  hash_datoms (d ∷ datoms) h = hash_datoms datoms (hash_signing_fields blake d h)

  unfoldable pub hash_ids : List EntityId → H → H
  hash_ids [] h = h
  hash_ids (e ∷ ids) h = hash_ids ids (blake.update h e)

  unfoldable pub signing_message : SigningComponents → Bytes → Bytes
  signing_message components signer_pk =
      let user = sort_unstable order (user_datoms components.datoms) in
      let preds = sort_unstable node_ord components.predecessor_entity_ids in
      let hashed =
        blake.update (hash_datoms user blake.new_hasher) (tx_id_canonical_bytes components.tx_id) in
      blake.finalize
        (blake.update (blake.update (hash_ids preds hashed) components.store_fingerprint) signer_pk)

  module _ (keys : Keys) where
    -- The signature and the signer
    unfoldable pub sign_transaction : SigningComponents → keys.SigningKey → Bytes × Bytes
    sign_transaction components key =
        let pk = keys.verifying_key key in (keys.sign key (signing_message components pk), pk)

    unfoldable pub verify_signature :
        SigningComponents → Bytes → Bytes → Result SigningError (Unit {0})
    verify_signature components signature signer =
        if keys.is_key signer
        then if keys.verify signer (signing_message components signer) signature
          then ok tt
          else err verification_failed
        else err invalid_key

-- Eight bits of a fingerprint are a byte.
abbrev byte_of : List Bool → ℕ
byte_of [] = 0
byte_of (b ∷ bits) = if b then suc (2 * byte_of bits) else 2 * byte_of bits

abbrev bytes_from : ℕ → Hash → Bytes
bytes_from zero bits = []
bytes_from (suc n) bits = byte_of (take 8 bits) ∷ bytes_from n (drop 8 bits)

-- `fingerprint().copied().unwrap_or([0u8; 32])`
abbrev pub fingerprint_or_zero : StoreRepr → Bytes
fingerprint_or_zero (positional ps) = bytes_from 32 ps.fingerprint
fingerprint_or_zero (ord_map set) = bytes_from 32 zero_hash

abbrev pub predecessor_ids : (Bytes → EntityId) → Frontier → List EntityId
predecessor_ids from_content [] = []
predecessor_ids from_content ((node, tx) ∷ frontier) =
    tx_entity_from_txid from_content tx ∷ predecessor_ids from_content frontier

module _ {ℓ} {H : Type ℓ} (p : Parts) (visit : Visit) (from_content : Bytes → EntityId)
    (serialize : List Datom → Option Bytes) (blake : Hasher H) (keys : Keys) where
  -- What `transact_signed` signs.
  abbrev pub components : Committed → Database p → TxId → SigningComponents
  components transaction db tx = record {
    datoms = transaction.datoms;
    tx_id = tx;
    predecessor_entity_ids = predecessor_ids from_content db.frontier;
    store_fingerprint = fingerprint_or_zero db.current.repr;
  }

  unfoldable pub transact_signed :
      Calls → Committed → keys.SigningKey → Database p → Database p × Result DbError TxReceipt
  transact_signed calls transaction key db =
      ticked p visit from_content serialize
        (λ tx. some (sign_transaction blake p.datom_order keys (components transaction db tx) key))
        calls transaction db (tick calls.reads db.clock)
