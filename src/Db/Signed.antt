-- ===== src/Db/Signed.antt =====
-- What is stored of a signed transaction verifies (ferratomic-core/src/signing.rs, INV-FERR-051).
use ferratomic.Prelude.{
  ◌≡◌, refl, sym, ap, ◌∙◌, Option, none, some, List, [], ◌∷◌, ◌++◌, map, All, inl, inr, Bool-cases,
  Ordering-cases, append-nil,
}
use ferratomic.Prelude.Bytes.{Bytes}
use ferratomic.Prelude.Order.{Ord}
use ferratomic.Prelude.Results.{ok}
use ferratomic.Prelude.Texts.{codes}
use ferratomic.Clock.TxId.{NodeId, node_ord, TxId}
use ferratomic.Clock.Frontier.{Frontier}
use ferratomic.Datom.Types.{EntityId, Datom}
use ferratomic.Datom.Hash.{Hasher, hash_signing_fields}
use ferratomic.Filter.{starts_with}
use ferratomic.Store.Merge.{insert_sorted, sort_unstable}
use ferratomic.Store.Apply.{
  TransactContext, stamp, stamp_datoms, create_tx_metadata, predecessors, predecessors_of,
  signatures, create_federation_metadata, stamped, tx_entity_from_txid, tx_id_canonical_bytes,
}
use ferratomic.Db.Signing.{
  SigningComponents, Keys, user_datoms, hash_datoms, hash_ids, signing_message, sign_transaction,
  verify_signature,
}

user_datoms-append : (a b : List Datom) → user_datoms (a ++ b) ≡ user_datoms a ++ user_datoms b
unfolding user_datoms
user_datoms-append [] b = refl
user_datoms-append (d ∷ a) b = elim (Bool-cases (starts_with d.attribute (codes "tx/"))) [
  | inl e ↦ rw e (user_datoms-append a b)
  | inr e ↦ rw e (ap (λ l. d ∷ l) (user_datoms-append a b))
]

user_datoms-stamp_datoms :
    (ds : List Datom) (tx : TxId)
    → user_datoms (stamp_datoms ds tx) ≡ map (stamp tx) (user_datoms ds)
unfolding user_datoms stamp_datoms
user_datoms-stamp_datoms [] tx = refl
user_datoms-stamp_datoms (d ∷ ds) tx = elim (Bool-cases (starts_with d.attribute (codes "tx/"))) [
  | inl e ↦ rw e (user_datoms-stamp_datoms ds tx)
  | inr e ↦ rw e (ap (λ l. stamp tx d ∷ l) (user_datoms-stamp_datoms ds tx))
]

module _ (from_content : Bytes → EntityId) where
  no_user_predecessors :
      (e : EntityId) (tx : TxId) (frontier : Frontier)
      → user_datoms (predecessors from_content e tx frontier) ≡ []
  unfolding user_datoms predecessors starts_with
  no_user_predecessors e tx [] = refl
  no_user_predecessors e tx ((node, pred) ∷ frontier) = no_user_predecessors e tx frontier

  no_user_predecessors_of :
      (e : EntityId) (tx : TxId) (frontier : Option Frontier)
      → user_datoms (predecessors_of from_content e tx frontier) ≡ []
  unfolding user_datoms
  no_user_predecessors_of e tx none = refl
  no_user_predecessors_of e tx (some frontier) = no_user_predecessors e tx frontier

  no_user_signatures :
      (e : EntityId) (tx : TxId) (signing : Option (Bytes × Bytes))
      → user_datoms (signatures from_content e tx signing) ≡ []
  unfolding user_datoms starts_with
  no_user_signatures e tx none = refl
  no_user_signatures e tx (some (sig, signer)) = refl

  -- The metadata is none of the user's.
  user_datoms-stamped :
      (node : NodeId) (ds : List Datom) (ctx : TransactContext)
      → user_datoms (stamped from_content node ds ctx) ≡ map (stamp ctx.tx_id) (user_datoms ds)
  unfolding stamped create_tx_metadata create_federation_metadata user_datoms starts_with
  user_datoms-stamped node ds ctx =
      let e : EntityId = tx_entity_from_txid from_content ctx.tx_id in
      let federation : List Datom =
        create_federation_metadata from_content e ctx.tx_id ctx.frontier ctx.signing
          ctx.provenance in
      let none_federated : user_datoms federation ≡ [] =
        user_datoms-append (predecessors_of from_content e ctx.tx_id ctx.frontier) _
        ∙ rw (no_user_predecessors_of e ctx.tx_id ctx.frontier)
            (no_user_signatures e ctx.tx_id ctx.signing) in
      let mine : List Datom = stamp_datoms ds ctx.tx_id in
      user_datoms-append mine (create_tx_metadata from_content e node ctx.tx_id ++ federation)
      ∙ ap (λ l. user_datoms mine ++ l) none_federated
      ∙ append-nil (user_datoms mine)
      ∙ user_datoms-stamp_datoms ds ctx.tx_id

-- Datoms of one transaction compare as before when they are stamped.
abbrev pub IgnoresStamp : Ord Datom → Type 0
IgnoresStamp order =
    (tx : TxId) (a b : Datom) → a.tx ≡ b.tx → order.cmp (stamp tx a) (stamp tx b) ≡ order.cmp a b

-- The datoms have this identifier, as those of a transaction that is not yet stamped.
abbrev pub HaveTx : TxId → List Datom → Type 0
HaveTx tx ds = All (λ (d : Datom). d.tx ≡ tx) ds

user_datoms-HaveTx : (tx : TxId) (ds : List Datom) → HaveTx tx ds → HaveTx tx (user_datoms ds)
unfolding user_datoms
user_datoms-HaveTx tx [] h = tt
user_datoms-HaveTx tx (d ∷ ds) h = elim (Bool-cases (starts_with d.attribute (codes "tx/"))) [
  | inl e ↦ rw e (user_datoms-HaveTx tx ds h.1)
  | inr e ↦ rw e (h.0, user_datoms-HaveTx tx ds h.1)
]

module _ (order : Ord Datom) (ignores : IgnoresStamp order) (old tx : TxId) where
  insert_sorted-HaveTx :
      (d : Datom) (ds : List Datom)
      → d.tx ≡ old
      → HaveTx old ds
      → HaveTx old (insert_sorted order d ds)
  unfolding insert_sorted
  insert_sorted-HaveTx d [] h k = (h, tt)
  insert_sorted-HaveTx d (a ∷ ds) h k = elim (Ordering-cases (order.cmp d a)) [
    | inl e ↦ rw (insert_sorted, e) (h, k)
    | inr (inl e) ↦ rw (insert_sorted, e) (h, k)
    | inr (inr e) ↦ rw (insert_sorted, e) (k.0, insert_sorted-HaveTx d ds h k.1)
  ]

  sort_unstable-HaveTx : (ds : List Datom) → HaveTx old ds → HaveTx old (sort_unstable order ds)
  unfolding sort_unstable
  sort_unstable-HaveTx [] h = tt
  sort_unstable-HaveTx (d ∷ ds) h =
      insert_sorted-HaveTx d (sort_unstable order ds) h.0 (sort_unstable-HaveTx ds h.1)

  insert_sorted-stamp :
      (d : Datom) (ds : List Datom)
      → d.tx ≡ old
      → HaveTx old ds
      → insert_sorted order (stamp tx d) (map (stamp tx) ds)
        ≡ map (stamp tx) (insert_sorted order d ds)
  unfolding insert_sorted
  insert_sorted-stamp d [] h k = refl
  insert_sorted-stamp d (a ∷ ds) h k =
      let same = ignores tx d a (h ∙ sym k.0) in
      elim (Ordering-cases (order.cmp d a)) [
        | inl e ↦ rw (insert_sorted, same, e) refl
        | inr (inl e) ↦ rw (insert_sorted, same, e) refl
        | inr (inr e) ↦
            rw (insert_sorted, same, e) (ap (λ l. stamp tx a ∷ l) (insert_sorted-stamp d ds h k.1))
      ]

  sort_unstable-stamp :
      (ds : List Datom)
      → HaveTx old ds
      → sort_unstable order (map (stamp tx) ds) ≡ map (stamp tx) (sort_unstable order ds)
  unfolding sort_unstable
  sort_unstable-stamp [] h = refl
  sort_unstable-stamp (d ∷ ds) h =
      ap (insert_sorted order (stamp tx d)) (sort_unstable-stamp ds h.1)
      ∙ insert_sorted-stamp d (sort_unstable order ds) h.0 (sort_unstable-HaveTx ds h.1)

  module _ {ℓ} {H : Type ℓ} (blake : Hasher H) where
    hash_datoms-stamp :
        (ds : List Datom) (h : H)
        → hash_datoms blake order (map (stamp tx) ds) h ≡ hash_datoms blake order ds h
    unfolding hash_datoms hash_signing_fields
    hash_datoms-stamp [] h = refl
    hash_datoms-stamp (d ∷ ds) h = hash_datoms-stamp ds (hash_signing_fields blake d h)

module _ {ℓ} {H : Type ℓ} (blake : Hasher H) (keys : Keys) (order : Ord Datom)
    (ignores : IgnoresStamp order) (from_content : Bytes → EntityId) where
  signing_message-stamped :
      (node : NodeId) (c : SigningComponents) (ctx : TransactContext) (old : TxId) (pk : Bytes)
      → HaveTx old c.datoms
      → signing_message blake order
          (record c { datoms = stamped from_content node c.datoms ctx })
          pk
        ≡ signing_message blake order c pk
  unfolding signing_message
  signing_message-stamped node c ctx old pk h =
      let user = user_datoms c.datoms in
      let preds = sort_unstable node_ord c.predecessor_entity_ids in
      let hashed : List Datom → H = λ ds. hash_datoms blake order ds blake.new_hasher in
      let same : hashed (sort_unstable order (user_datoms (stamped from_content node c.datoms ctx)))
          ≡ hashed (sort_unstable order user) =
        ap (λ ds. hashed (sort_unstable order ds))
          (user_datoms-stamped from_content node c.datoms ctx)
        ∙ ap hashed (
            sort_unstable-stamp order ignores old ctx.tx_id user
              (user_datoms-HaveTx old c.datoms h))
        ∙ hash_datoms-stamp order ignores old ctx.tx_id blake (sort_unstable order user)
            blake.new_hasher in
      ap
        (λ x. blake.finalize (
          blake.update
            (blake.update
              (hash_ids blake order preds (blake.update x (tx_id_canonical_bytes c.tx_id)))
              c.store_fingerprint)
            pk))
        same

  -- What a transaction stores - its datoms stamped, and the metadata behind them - verifies under
  -- the signature that was made of its datoms before they were stamped, if these had one
  -- identifier, and stamping does not change how the datoms of one transaction compare.
  pub verify_signature-stamped :
      (key : keys.SigningKey) (node : NodeId) (c : SigningComponents) (ctx : TransactContext)
      (old : TxId)
      → HaveTx old c.datoms
      → verify_signature blake order keys
          (record c { datoms = stamped from_content node c.datoms ctx })
          (sign_transaction blake order keys c key).0
          (sign_transaction blake order keys c key).1
        ≡ ok tt
  unfolding verify_signature sign_transaction
  verify_signature-stamped key node c ctx old h =
      let pk = keys.verifying_key key in
      rw
        (
          keys.is_key-verifying_key key,
          signing_message-stamped node c ctx old pk h,
          keys.verify-sign key (signing_message blake order c pk),
        )
        refl
