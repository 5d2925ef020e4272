-- ===== src/Examples/Signatures.antt =====
-- A signature with a toy scheme, in which a message is its own signature.
use ferratomic.Prelude.{◌≡◌, refl, sym, ap, ◌∙◌, true, none, some, [], ◌∷◌, replicate, Ordering}
use ferratomic.Prelude.Bytes.{Bytes, bytes_eq, bytes_eq_refl}
use ferratomic.Prelude.Order.{then_with, pair_ord, nat_ord}
use ferratomic.Prelude.Results.{ok}
use ferratomic.Prelude.Texts.{codes}
use ferratomic.Clock.TxId.{TxId, node_ord, tx_ord, with_node}
use ferratomic.Datom.Types.{string, Datom}
use ferratomic.Store.Apply.{TransactContext, observed, stamped}
use ferratomic.Filter.{starts_with}
use ferratomic.Db.Signing.{
  SigningComponents, Keys, sign_transaction, verify_signature, signing_message, user_datoms,
}
use ferratomic.Db.Signed.{IgnoresStamp, verify_signature-stamped}
use ferratomic.Examples.Hashes.{first_bytes}
use ferratomic.Examples.Selections.{datom_ord, value_key, fact}
use ferratomic.Datom.Encode.{op_byte}

abbrev keys : Keys
keys = record {
  SigningKey = Bytes;
  verifying_key = λ k. k;
  sign = λ k message. message;
  is_key = λ k. true;
  verify = λ k message signature. bytes_eq message signature;
  is_key-verifying_key = λ k. refl;
  verify-sign = λ k message. bytes_eq_refl message;
}

abbrev unstamped : TxId
unstamped = with_node 1000 3 (replicate 16 1)

datom_ord-IgnoresStamp : IgnoresStamp datom_ord
datom_ord-IgnoresStamp tx a b same =
    let here : tx_ord.cmp tx tx ≡ Ordering.eq = tx_ord.cmp_refl tx in
    let there : tx_ord.cmp a.tx b.tx ≡ Ordering.eq =
      ap (λ t. tx_ord.cmp t b.tx) same ∙ tx_ord.cmp_refl b.tx in
    ap
      (λ o. then_with (node_ord.cmp a.entity b.entity) (
        then_with (node_ord.cmp a.attribute b.attribute) (
          then_with ((pair_ord nat_ord node_ord).cmp (value_key a.value) (value_key b.value))
            (then_with o (nat_ord.cmp (op_byte a.op) (op_byte b.op))))))
      (here ∙ sym there)

-- A fact, and a reason that is not signed
abbrev reason : Datom
reason = record (fact []) { attribute = codes "tx/rationale"; value = string (codes "why") }

abbrev components : SigningComponents
components = record {
  datoms = fact (0x61 ∷ []) ∷ reason ∷ [];
  tx_id = with_node 2000 0 (replicate 16 1);
  predecessor_entity_ids = (5 ∷ []) ∷ [];
  store_fingerprint = replicate 32 0;
}

abbrev signature : Bytes
signature = (sign_transaction first_bytes datom_ord keys components (9 ∷ [])).0

abbrev context : TransactContext
context = record {
  tx_id = components.tx_id;
  frontier = none;
  signing = some (signature, 9 ∷ []);
  provenance = observed;
}

verify_signature-stamped_example :
    verify_signature first_bytes datom_ord keys
      (record components { datoms = stamped (λ b. b) (replicate 16 1) components.datoms context })
      (sign_transaction first_bytes datom_ord keys components (9 ∷ [])).0
      (sign_transaction first_bytes datom_ord keys components (9 ∷ [])).1
    ≡ ok tt
verify_signature-stamped_example =
    verify_signature-stamped first_bytes keys datom_ord datom_ord-IgnoresStamp (λ b. b) (9 ∷ [])
      (replicate 16 1) components context unstamped (refl, (refl, tt))

-- The reason can be replaced: the message stays the same.
reason_not_signed :
    (d : Datom)
    → d.attribute ≡ codes "tx/rationale"
    → signing_message first_bytes datom_ord
        (record components { datoms = fact (0x61 ∷ []) ∷ d ∷ [] })
        (9 ∷ [])
      ≡ signing_message first_bytes datom_ord components (9 ∷ [])
unfolding signing_message user_datoms starts_with
reason_not_signed d h = rw h refl
