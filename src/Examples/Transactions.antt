-- ===== src/Examples/Transactions.antt =====
-- Transactions, batches and schema evolution at concrete datoms.
use ferratomic.Prelude.{◌≡◌, refl, inl, inr, none, some, List, [], ◌∷◌, ◌++◌, All, replicate}
use ferratomic.Prelude.Bytes.{Bytes, bytes_eq, to_le_bytes}
use ferratomic.Prelude.Results.{ok}
use ferratomic.Prelude.Texts.{codes}
use ferratomic.Clock.TxId.{TxId, with_node}
use ferratomic.Datom.Types.{EntityId, Attribute, Value, keyword, string, assert, Datom}
use ferratomic.Store.Evolution.{
  Visit, evolve_schema, evolve_groups, group_from, push_by_entity, by_entity, extract_attribute_def,
  read_datoms, read_keyword, as_keyword, parse_value_type, parse_cardinality, named,
}
use ferratomic.Store.AnyOrder.{IsIn, IsVisit, Defines, IsUnambiguous, evolve_schema_any_order}
use ferratomic.Store.Apply.{
  TransactContext, inferred, stamped, stamp_datoms, batch_context, create_tx_metadata,
  create_federation_metadata, tx_id_canonical_bytes, tx_entity_from_txid, batch_splice_transact,
}
use ferratomic.Store.Batch.{transact_each, SameOutcome}
use ferratomic.Store.BatchOrders.{batch_splice_transact-SameOutcome}
use ferratomic.Store.Genesis.{genesis_schema, define_meta_schema, define_tx_schema, lww_str}
use ferratomic.Store.Typed.{stamped-IsTyped}
use ferratomic.Tx.Schema.{Schema, AttributeDef, long, one, string, lww, get_attribute, define}
use ferratomic.Prelude.TreeMap
use ferratomic.Prelude.Order.{list_cmp}
use ferratomic.Clock.TxId.{node_ord}
use ferratomic.Tx.Verdict.{IsTyped}
use ferratomic.Examples.Lattices.{doc_fact}
use ferratomic.Examples.Stores.{parts, our_store, our_store-IsStore}

abbrev same_order : Visit
same_order groups = groups

-- Another order: the first two groups exchanged
abbrev exchanged : Visit
exchanged [] = []
exchanged (g ∷ []) = g ∷ []
exchanged (g ∷ h ∷ groups) = h ∷ g ∷ groups

same_order-IsVisit : IsVisit same_order
same_order-IsVisit groups g = ((λ m. m), (λ m. m))

exchange : (g : List Datom) (groups : List (List Datom)) → IsIn g (exchanged groups) → IsIn g groups
exchange g [] m = m
exchange g (a ∷ []) m = m
exchange g (a ∷ b ∷ groups) (inl e) = inr (inl e)
exchange g (a ∷ b ∷ groups) (inr (inl e)) = inl e
exchange g (a ∷ b ∷ groups) (inr (inr m)) = inr (inr m)

exchange_back :
    (g : List Datom) (groups : List (List Datom)) → IsIn g groups → IsIn g (exchanged groups)
exchange_back g [] m = m
exchange_back g (a ∷ []) m = m
exchange_back g (a ∷ b ∷ groups) (inl e) = inr (inl e)
exchange_back g (a ∷ b ∷ groups) (inr (inl e)) = inl e
exchange_back g (a ∷ b ∷ groups) (inr (inr m)) = inr (inr m)

exchanged-IsVisit : IsVisit exchanged
exchanged-IsVisit groups g = (exchange g groups, exchange_back g groups)

abbrev said : EntityId → Attribute → Value → Datom
said e a v = record {
  entity = e;
  attribute = a;
  value = v;
  tx = with_node 1 0 (replicate 16 0);
  op = assert;
}

-- The entity defines the attribute `user/age` with this type.
abbrev definition_of : EntityId → Bytes → List Datom
definition_of e type =
    said e (codes "db/ident") (keyword (codes "user/age"))
    ∷ said e (codes "db/valueType") (keyword type)
    ∷ said e (codes "db/cardinality") (keyword (codes "db.cardinality/one"))
    ∷ []

abbrev as_long : List Datom
as_long = definition_of (1 ∷ []) (codes "db.type/long")

abbrev as_string : List Datom
as_string = definition_of (2 ∷ []) (codes "db.type/string")

abbrev user : List Datom
user = said (3 ∷ []) (codes "user/age") (string (codes "40")) ∷ []

abbrev long_def : AttributeDef
long_def = record { value_type = long; cardinality = one; resolution_mode = lww; doc = none }

abbrev string_def : AttributeDef
string_def = record { value_type = string; cardinality = one; resolution_mode = lww; doc = none }

as_long-Defines : Defines as_long (codes "user/age") long_def
unfolding extract_attribute_def read_datoms read_keyword as_keyword parse_value_type
    parse_cardinality named bytes_eq
as_long-Defines = refl

user_defines_nothing : extract_attribute_def user ≡ ok none
unfolding extract_attribute_def read_datoms read_keyword as_keyword bytes_eq
user_defines_nothing = refl

two_groups : by_entity (as_long ++ user) ≡ as_long ∷ user ∷ []
unfolding group_from push_by_entity bytes_eq
two_groups = refl

one_definition : IsUnambiguous (by_entity (as_long ++ user))
one_definition = rw two_groups cases
  where
    cases : IsUnambiguous (as_long ∷ user ∷ [])
    cases g h attr d e (inl m) (inl n) x y =
        let first : extract_attribute_def as_long ≡ ok (some (attr, d)) = rw m at x in
        let second : extract_attribute_def as_long ≡ ok (some (attr, e)) = rw n at y in cc
    cases g h attr d e (inr (inl m)) n x y =
        let nothing : extract_attribute_def user ≡ ok (some (attr, d)) = rw m at x in
        cc (nothing, user_defines_nothing)
    cases g h attr d e (inr (inr m)) n x y = absurd m
    cases g h attr d e (inl m) (inr (inl n)) x y =
        let nothing : extract_attribute_def user ≡ ok (some (attr, e)) = rw n at y in
        cc (nothing, user_defines_nothing)
    cases g h attr d e (inl m) (inr (inr n)) x y = absurd n

defined : (evolve_schema same_order [] (as_long ++ user)).1 ≡ ok tt
unfolding evolve_schema evolve_groups
defined = rw (two_groups, as_long-Defines, user_defines_nothing) refl

evolve_schema_any_order_example :
    evolve_schema exchanged [] (as_long ++ user) ≡ evolve_schema same_order [] (as_long ++ user)
evolve_schema_any_order_example =
    evolve_schema_any_order same_order exchanged (as_long ++ user) [] same_order-IsVisit
      exchanged-IsVisit tt one_definition defined

abbrev hash : Bytes → EntityId
hash b = b

abbrev batch : List (List Datom × TxId)
batch =
    (doc_fact ∷ [], with_node 100 0 (replicate 16 0))
    ∷ (user, with_node 101 0 (replicate 16 0))
    ∷ []

-- Both orders evolve any schema alike.
abbrev SameHere : List Datom → TxId → Type 0
SameHere ds tx =
    (schema : Schema)
    → evolve_schema exchanged schema (stamped hash tx.node ds (batch_context hash tx))
      ≡ evolve_schema same_order schema (stamped hash tx.node ds (batch_context hash tx))

first_same : SameHere (doc_fact ∷ []) (with_node 100 0 (replicate 16 0))
unfolding evolve_schema evolve_groups group_from push_by_entity bytes_eq extract_attribute_def
    read_datoms read_keyword as_keyword stamped stamp_datoms create_tx_metadata
    create_federation_metadata tx_id_canonical_bytes to_le_bytes tx_entity_from_txid
first_same schema = refl

second_same : SameHere user (with_node 101 0 (replicate 16 0))
unfolding evolve_schema evolve_groups group_from push_by_entity bytes_eq extract_attribute_def
    read_datoms read_keyword as_keyword stamped stamp_datoms create_tx_metadata
    create_federation_metadata tx_id_canonical_bytes to_le_bytes tx_entity_from_txid
second_same schema = refl

batch_splice_transact-SameOutcome_example :
    SameOutcome parts same_order hash
      (batch_splice_transact parts same_order hash batch our_store)
      (transact_each parts exchanged hash batch our_store)
batch_splice_transact-SameOutcome_example =
    batch_splice_transact-SameOutcome parts same_order exchanged hash batch our_store
      our_store-IsStore.canonical
      (first_same our_store.schema, λ t r e. (second_same t.schema, λ u q f. tt))

abbrev reasoned : List Datom
reasoned = said (4 ∷ []) (codes "tx/rationale") (string (codes "why")) ∷ []

abbrev signed : TransactContext
signed = record {
  tx_id = with_node 100 0 (replicate 16 0);
  frontier = some ((replicate 16 5, with_node 99 0 (replicate 16 5)) ∷ []);
  signing = some (7 ∷ 8 ∷ [], 9 ∷ []);
  provenance = inferred;
}

reasoned-IsTyped : All (IsTyped genesis_schema) reasoned
unfolding get_attribute genesis_schema define_meta_schema define_tx_schema define TreeMap.lookup
    TreeMap.insert node_ord list_cmp
reasoned-IsTyped = ((lww_str (codes "Why this transaction exists"), refl, refl), tt)

stamped-IsTyped_example :
    All (IsTyped genesis_schema) (stamped hash (replicate 16 3) reasoned signed)
stamped-IsTyped_example =
    stamped-IsTyped hash genesis_schema (λ a def e. e) (replicate 16 3) reasoned signed
      reasoned-IsTyped
