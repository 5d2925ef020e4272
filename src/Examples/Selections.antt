-- ===== src/Examples/Selections.antt =====
-- Filtering and merging at concrete datoms.
use ferratomic.Prelude.{
  ℕ, ◌≡◌, refl, sym, ap, ◌∙◌, true, false, List, [], ◌∷◌, ◌==◌, if◌then◌else◌, get_or, replicate,
}
use ferratomic.Prelude.Bytes.{Bytes}
use ferratomic.Prelude.Order.{Ord, nat_ord, pair_ord, key_ord, list_cmp}
use ferratomic.Clock.TxId.{TxId, node_ord, tx_ord}
use ferratomic.Datom.Types.{
  Op, assert, retract, Value, keyword, string, long, double, bool, instant, uuid, bytes, ref,
  big_int, big_dec, Datom,
}
use ferratomic.Datom.Encode.{bool_byte, op_byte}
use ferratomic.Filter.{
  DatomFilter, attribute_namespace, entities, or, nil, cons, matches, any_prefix, starts_with,
  contains,
}
use ferratomic.Filter.Union.{select}
use ferratomic.Positional.MergeLaws.{IsCanonical}

-- An order of datoms: by the fields, a value by its tag and payload.
abbrev pub value_key : Value → ℕ × List ℕ
value_key (keyword s) = (1, s)
value_key (string s) = (2, s)
value_key (long n) = (3, n ∷ [])
value_key (double f) = (4, f ∷ [])
value_key (bool b) = (5, bool_byte b ∷ [])
value_key (instant n) = (6, n ∷ [])
value_key (uuid u) = (7, u)
value_key (bytes s) = (8, s)
value_key (ref e) = (9, e)
value_key (big_int n) = (10, n ∷ [])
value_key (big_dec n) = (11, n ∷ [])

abbrev pub one_number : List ℕ → ℕ
one_number s = get_or s 0 0

abbrev pub value_of_key : ℕ × List ℕ → Value
value_of_key (tag, s) =
    if tag == 1
    then keyword s
    else if tag == 2
    then string s
    else if tag == 3
    then long (one_number s)
    else if tag == 4
    then double (one_number s)
    else if tag == 5
    then bool (one_number s == 1)
    else if tag == 6
    then instant (one_number s)
    else if tag == 7
    then uuid s
    else if tag == 8
    then bytes s
    else if tag == 9
    then ref s
    else if tag == 10
    then big_int (one_number s)
    else big_dec (one_number s)

pub value_of_key-value_key : (v : Value) → value_of_key (value_key v) ≡ v
value_of_key-value_key (keyword s) = refl
value_of_key-value_key (string s) = refl
value_of_key-value_key (long n) = refl
value_of_key-value_key (double f) = refl
value_of_key-value_key (bool true) = refl
value_of_key-value_key (bool false) = refl
value_of_key-value_key (instant n) = refl
value_of_key-value_key (uuid u) = refl
value_of_key-value_key (bytes s) = refl
value_of_key-value_key (ref e) = refl
value_of_key-value_key (big_int n) = refl
value_of_key-value_key (big_dec n) = refl

abbrev pub DatomKey : Type 0
DatomKey = Bytes × (Bytes × ((ℕ × List ℕ) × (TxId × ℕ)))

abbrev pub datom_key : Datom → DatomKey
datom_key d = (d.entity, (d.attribute, (value_key d.value, (d.tx, op_byte d.op))))

abbrev pub op_of : ℕ → Op
op_of n = if n == 0 then assert else retract

abbrev pub datom_of : DatomKey → Datom
datom_of (e, (a, (v, (t, o)))) = record {
  entity = e;
  attribute = a;
  value = value_of_key v;
  tx = t;
  op = op_of o;
}

pub op_of-op_byte : (o : Op) → op_of (op_byte o) ≡ o
op_of-op_byte assert = refl
op_of-op_byte retract = refl

pub datom_of-datom_key : (d : Datom) → datom_of (datom_key d) ≡ d
datom_of-datom_key d = rw (value_of_key-value_key d.value, op_of-op_byte d.op) refl

abbrev pub datom_ord : Ord Datom
datom_ord =
    key_ord
      (pair_ord node_ord
        (pair_ord node_ord (pair_ord (pair_ord nat_ord node_ord) (pair_ord tx_ord nat_ord))))
      datom_key (λ a b h. sym (datom_of-datom_key a) ∙ ap datom_of h ∙ datom_of-datom_key b)

-- Entity 7, and the attributes "a" and "b".
abbrev pub fact : Bytes → Datom
fact attribute = record {
  entity = replicate 32 7;
  attribute = attribute;
  value = long 1;
  tx = record { physical = 1000; logical = 3; node = replicate 16 1 };
  op = assert;
}

abbrev pub ours : List Datom
ours = fact (0x61 ∷ []) ∷ fact (0x62 ∷ []) ∷ []

abbrev pub theirs : List Datom
theirs = fact (0x61 ∷ []) ∷ []

pub ours-IsCanonical : IsCanonical datom_ord ours
unfolding node_ord list_cmp
ours-IsCanonical = ((refl, tt), (tt, tt))

abbrev pub shared : DatomFilter
shared = or (cons (attribute_namespace ((0x61 ∷ []) ∷ [])) (cons (entities []) nil))

shared-matches : select (matches shared) ours ≡ theirs
unfolding select matches any_prefix starts_with contains
shared-matches = refl
