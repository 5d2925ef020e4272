-- ===== src/Examples/Definitions.antt =====
-- The order of attribute definitions, field by field, and two schemas that conflict.
use ferratomic.Prelude.{
  ℕ, ◌≡◌, refl, sym, ap, ◌∙◌, Option, none, some, List, [], ◌∷◌, ◌==◌, if◌then◌else◌,
}
use ferratomic.Prelude.Bytes.{Bytes}
use ferratomic.Prelude.Order.{Ord, nat_ord, pair_ord, list_ord, key_ord, list_cmp}
use ferratomic.Clock.TxId.{node_ord}
use ferratomic.Tx.Schema.{
  AttributeDef, ValueType, keyword, string, long, double, boolean, instant, uuid, bytes, ref,
  big_int, big_dec, Cardinality, one, many, ResolutionMode, lww, multi_value, Schema,
}
use ferratomic.Store.SchemaLaws.{IsSchema}

abbrev type_key : ValueType → ℕ
type_key keyword = 0
type_key string = 1
type_key long = 2
type_key double = 3
type_key boolean = 4
type_key instant = 5
type_key uuid = 6
type_key bytes = 7
type_key ref = 8
type_key big_int = 9
type_key big_dec = 10

abbrev type_of_key : ℕ → ValueType
type_of_key n =
    if n == 0
    then keyword
    else if n == 1
    then string
    else if n == 2
    then long
    else if n == 3
    then double
    else if n == 4
    then boolean
    else if n == 5
    then instant
    else if n == 6
    then uuid
    else if n == 7
    then bytes
    else if n == 8
    then ref
    else if n == 9
    then big_int
    else big_dec

type_of_key-type_key : (t : ValueType) → type_of_key (type_key t) ≡ t
type_of_key-type_key keyword = refl
type_of_key-type_key string = refl
type_of_key-type_key long = refl
type_of_key-type_key double = refl
type_of_key-type_key boolean = refl
type_of_key-type_key instant = refl
type_of_key-type_key uuid = refl
type_of_key-type_key bytes = refl
type_of_key-type_key ref = refl
type_of_key-type_key big_int = refl
type_of_key-type_key big_dec = refl

abbrev cardinality_key : Cardinality → ℕ
cardinality_key one = 0
cardinality_key many = 1

abbrev cardinality_of_key : ℕ → Cardinality
cardinality_of_key n = if n == 0 then one else many

cardinality_of_key-cardinality_key : (c : Cardinality) → cardinality_of_key (cardinality_key c) ≡ c
cardinality_of_key-cardinality_key one = refl
cardinality_of_key-cardinality_key many = refl

abbrev mode_key : ResolutionMode → ℕ
mode_key lww = 0
mode_key multi_value = 1

abbrev mode_of_key : ℕ → ResolutionMode
mode_of_key n = if n == 0 then lww else multi_value

mode_of_key-mode_key : (m : ResolutionMode) → mode_of_key (mode_key m) ≡ m
mode_of_key-mode_key lww = refl
mode_of_key-mode_key multi_value = refl

abbrev doc_key : Option Bytes → List Bytes
doc_key none = []
doc_key (some b) = b ∷ []

abbrev doc_of_key : List Bytes → Option Bytes
doc_of_key [] = none
doc_of_key (b ∷ l) = some b

doc_of_key-doc_key : (d : Option Bytes) → doc_of_key (doc_key d) ≡ d
doc_of_key-doc_key none = refl
doc_of_key-doc_key (some b) = refl

abbrev DefKey : Type 0
DefKey = ℕ × (ℕ × (ℕ × List Bytes))

abbrev def_key : AttributeDef → DefKey
def_key d = (
  type_key d.value_type,
  (cardinality_key d.cardinality, (mode_key d.resolution_mode, doc_key d.doc)),
)

abbrev def_of_key : DefKey → AttributeDef
def_of_key (t, (c, (m, d))) = record {
  value_type = type_of_key t;
  cardinality = cardinality_of_key c;
  resolution_mode = mode_of_key m;
  doc = doc_of_key d;
}

def_of_key-def_key : (d : AttributeDef) → def_of_key (def_key d) ≡ d
def_of_key-def_key d =
    rw
      (
        type_of_key-type_key d.value_type,
        cardinality_of_key-cardinality_key d.cardinality,
        mode_of_key-mode_key d.resolution_mode,
        doc_of_key-doc_key d.doc,
      )
      refl

pub def_order : Ord AttributeDef
def_order =
    key_ord (pair_ord nat_ord (pair_ord nat_ord (pair_ord nat_ord (list_ord node_ord)))) def_key
      (λ a b h. sym (def_of_key-def_key a) ∙ ap def_of_key h ∙ def_of_key-def_key b)

abbrev def_with : ValueType → AttributeDef
def_with t = record { value_type = t; cardinality = one; resolution_mode = lww; doc = none }

-- The attribute "a", as a string and as a number.
abbrev pub our_schema : Schema
our_schema = (0x61 ∷ [], def_with string) ∷ []

abbrev pub their_schema : Schema
their_schema = (0x61 ∷ [], def_with long) ∷ (0x62 ∷ [], def_with long) ∷ []

pub our_schema-IsSchema : IsSchema our_schema
our_schema-IsSchema = (tt, tt)

pub their_schema-IsSchema : IsSchema their_schema
unfolding node_ord list_cmp
their_schema-IsSchema = ((refl, tt), (tt, tt))
