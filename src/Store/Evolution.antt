-- ===== src/Store/Evolution.antt =====
-- Schema evolution (schema_evolution.rs). The order in which a `HashMap` yields its groups is the
-- parameter `visit`. Errors are without their texts: a violation names the attribute.
use ferratomic.Prelude.{
  ℕ, Bool, true, Option, none, some, List, [], ◌∷◌, ◌++◌, map, ◌==◌, if◌then◌else◌,
}
use ferratomic.Prelude.Bytes.{Bytes, bytes_eq}
use ferratomic.Prelude.Results.{Result, ok, err, ◌>>=◌}
use ferratomic.Prelude.Texts.{codes}
use ferratomic.Datom.Types.{
  EntityId, Attribute, Value, keyword, string, long, double, bool, instant, uuid, bytes, ref,
  big_int, big_dec, Datom,
}
use ferratomic.Tx.Schema.{ValueType, Cardinality, one, many, lww, AttributeDef, Schema, define}

pub data ApplyError : Type 0 where
  empty_transaction epoch_overflow : ApplyError
  schema_violation : Attribute → ApplyError

abbrev pub db_ident : Attribute
db_ident = codes "db/ident"

abbrev pub db_value_type : Attribute
db_value_type = codes "db/valueType"

abbrev pub db_cardinality : Attribute
db_cardinality = codes "db/cardinality"

-- The first name that is the keyword's gives its meaning.
unfoldable pub named {ℓ} : {A : Type ℓ} → Bytes → List (Bytes × A) → Option A
named kw [] = none
named kw ((name, a) ∷ names) = if bytes_eq kw name then some a else named kw names

unfoldable pub parse_value_type : Bytes → Option ValueType
parse_value_type kw = named kw (
    (codes "db.type/keyword", ValueType.keyword)
    ∷ (codes "db.type/string", ValueType.string)
    ∷ (codes "db.type/long", ValueType.long)
    ∷ (codes "db.type/double", ValueType.double)
    ∷ (codes "db.type/boolean", ValueType.boolean)
    ∷ (codes "db.type/instant", ValueType.instant)
    ∷ (codes "db.type/uuid", ValueType.uuid)
    ∷ (codes "db.type/bytes", ValueType.bytes)
    ∷ (codes "db.type/ref", ValueType.ref)
    ∷ (codes "db.type/bigint", ValueType.big_int)
    ∷ (codes "db.type/bigdec", ValueType.big_dec)
    ∷ [])

unfoldable pub parse_cardinality : Bytes → Option Cardinality
parse_cardinality kw =
    named kw ((codes "db.cardinality/one", one) ∷ (codes "db.cardinality/many", many) ∷ [])

unfoldable pub as_keyword : Value → Option Bytes
as_keyword (keyword kw) = some kw
as_keyword (string s) = none
as_keyword (long n) = none
as_keyword (double f) = none
as_keyword (bool b) = none
as_keyword (instant n) = none
as_keyword (uuid u) = none
as_keyword (bytes s) = none
as_keyword (ref e) = none
as_keyword (big_int n) = none
as_keyword (big_dec n) = none

-- The derived equality, by the position of the variant
abbrev pub type_rank : ValueType → ℕ
type_rank ValueType.keyword = 0
type_rank ValueType.string = 1
type_rank ValueType.long = 2
type_rank ValueType.double = 3
type_rank ValueType.boolean = 4
type_rank ValueType.instant = 5
type_rank ValueType.uuid = 6
type_rank ValueType.bytes = 7
type_rank ValueType.ref = 8
type_rank ValueType.big_int = 9
type_rank ValueType.big_dec = 10

abbrev pub same_type : ValueType → ValueType → Bool
same_type a b = type_rank a == type_rank b

abbrev pub cardinality_rank : Cardinality → ℕ
cardinality_rank one = 0
cardinality_rank many = 1

abbrev pub same_cardinality : Cardinality → Cardinality → Bool
same_cardinality a b = cardinality_rank a == cardinality_rank b

-- What `extract_attribute_def` has found so far.
pub record Found : Type 0 where
  pub ident : Option Bytes
  pub vtype : Option ValueType
  pub card : Option Cardinality

abbrev pub agrees {ℓ} : {A : Type ℓ} → (A → A → Bool) → Option A → A → Bool
agrees same none a = true
agrees same (some prev) a = same prev a

abbrev pub set_vtype : Found → Option ValueType → Result ApplyError Found
set_vtype f none = err (schema_violation db_value_type)
set_vtype f (some vt) =
    if agrees same_type f.vtype vt
    then ok (record f { vtype = some vt })
    else err (schema_violation db_value_type)

abbrev pub set_card : Found → Option Cardinality → Result ApplyError Found
set_card f none = err (schema_violation db_cardinality)
set_card f (some c) =
    if agrees same_cardinality f.card c
    then ok (record f { card = some c })
    else err (schema_violation db_cardinality)

abbrev pub set_ident : Found → Bytes → Result ApplyError Found
set_ident f kw =
    if agrees bytes_eq f.ident kw
    then ok (record f { ident = some kw })
    else err (schema_violation db_ident)

-- The body of the loop, on the attribute of a datom and the keyword of its value
unfoldable pub read_keyword : Found → Attribute → Option Bytes → Result ApplyError Found
read_keyword f attr none = ok f
read_keyword f attr (some kw) =
    if bytes_eq attr db_ident
    then set_ident f kw
    else if bytes_eq attr db_value_type
    then set_vtype f (parse_value_type kw)
    else if bytes_eq attr db_cardinality
    then set_card f (parse_cardinality kw)
    else ok f

unfoldable pub read_datoms : Found → List Datom → Result ApplyError Found
read_datoms f [] = ok f
read_datoms f (d ∷ datoms) =
    read_keyword f d.attribute (as_keyword d.value) >>= (λ g. read_datoms g datoms)

abbrev pub definition :
    Option Bytes → Option ValueType → Option Cardinality → Option (Attribute × AttributeDef)
definition (some name) (some vt) (some c) =
    some (name, record { value_type = vt; cardinality = c; resolution_mode = lww; doc = none })
definition _ _ _ = none

unfoldable pub extract_attribute_def :
    List Datom → Result ApplyError (Option (Attribute × AttributeDef))
extract_attribute_def datoms =
    read_datoms (record { ident = none; vtype = none; card = none }) datoms
    >>= (λ f. ok (definition f.ident f.vtype f.card))

-- `by_entity.entry(datom.entity()).or_default().push(datom)`
unfoldable pub push_by_entity : Datom → List (EntityId × List Datom) → List (EntityId × List Datom)
push_by_entity d [] = (d.entity, d ∷ []) ∷ []
push_by_entity d ((e, group) ∷ groups) =
    let rest = push_by_entity d groups in
    if bytes_eq e d.entity then (e, group ++ d ∷ []) ∷ groups else (e, group) ∷ rest

unfoldable pub group_from : List (EntityId × List Datom) → List Datom → List (EntityId × List Datom)
group_from groups [] = groups
group_from groups (d ∷ datoms) = group_from (push_by_entity d groups) datoms

abbrev pub values_of : EntityId × List Datom → List Datom
values_of (e, group) = group

abbrev pub by_entity : List Datom → List (List Datom)
by_entity datoms = map values_of (group_from [] datoms)

-- One round of the loop over the groups: `define`, nothing, or the error
abbrev pub install :
    Schema
    → (Schema → Schema × Result ApplyError (Unit {0}))
    → Result ApplyError (Option (Attribute × AttributeDef))
    → Schema × Result ApplyError (Unit {0})
install schema go_on (err e) = (schema, err e)
install schema go_on (ok none) = go_on schema
install schema go_on (ok (some (attr, def))) = go_on (define attr def schema)

unfoldable pub evolve_groups : List (List Datom) → Schema → Schema × Result ApplyError (Unit {0})
evolve_groups [] schema = (schema, ok tt)
evolve_groups (group ∷ groups) schema =
    install schema (evolve_groups groups) (extract_attribute_def group)

-- `HashMap::values`: the groups in some order
abbrev pub Visit : Type 0
Visit = List (List Datom) → List (List Datom)

unfoldable pub evolve_schema : Visit → Schema → List Datom → Schema × Result ApplyError (Unit {0})
evolve_schema visit schema datoms = evolve_groups (visit (by_entity datoms)) schema
