-- ===== src/Intern.antt =====
-- Attribute names and their intern table (ferratom/src/datom/value.rs).
pub mod Table
use ferratomic.Prelude.{
  ℕ, ◌+◌, Option, none, some, List, [], ◌∷◌, ◌++◌, ltb, if◌then◌else◌, length, get_elem?,
}
use ferratomic.Prelude.Results.{Result, ok, err}
use ferratomic.Prelude.TreeMap
use ferratomic.Prelude.TreeMap.{TreeMap}
use ferratomic.Clock.TxId.{node_ord}
use ferratomic.Datom.Types.{Attribute}

pub data InternError : Type 0 where
  attribute_too_long : ℕ → InternError
  invariant_violation : InternError

-- `Attribute::new`
unfoldable pub new_attribute : Attribute → Result InternError Attribute
new_attribute s = if ltb 0xFFFF (length s) then err (attribute_too_long (length s)) else ok s

pub record AttributeIntern : Type 0 where
  pub to_id : TreeMap Attribute ℕ
  pub to_name : List Attribute

-- The next id, the number of names so far, is given to `a`.
abbrev pub push_name : Attribute → AttributeIntern → AttributeIntern
push_name a t = record {
  to_id = TreeMap.insert node_ord a (length t.to_name) t.to_id;
  to_name = t.to_name ++ a ∷ [];
}

-- `collect` into a `BTreeSet`
abbrev pub collect : List Attribute → TreeMap Attribute (Unit {0}) → TreeMap Attribute (Unit {0})
collect [] set = set
collect (a ∷ attrs) set = collect attrs (TreeMap.insert node_ord a tt set)

-- The loop of `from_attributes`, over the names in order.
unfoldable pub number : TreeMap Attribute (Unit {0}) → AttributeIntern → AttributeIntern
number [] t = t
number ((a, u) ∷ sorted) t = number sorted (push_name a t)

-- An index below 65536 fits `u16`, so that the conversion in the loop cannot fail.
unfoldable pub from_attributes : List Attribute → Result InternError AttributeIntern
from_attributes attrs =
    let sorted = collect attrs [] in
    if ltb (0xFFFF + 1) (length sorted)
    then err invariant_violation
    else ok (number sorted (record { to_id = []; to_name = [] }))

unfoldable pub id_of : Attribute → AttributeIntern → Option ℕ
id_of a t = TreeMap.lookup node_ord a t.to_id

unfoldable pub resolve : ℕ → AttributeIntern → Option Attribute
resolve id t = get_elem? t.to_name id

abbrev pub intern_as :
    Option ℕ → Attribute → AttributeIntern → AttributeIntern × Result InternError ℕ
intern_as (some id) a t = (t, ok id)
intern_as none a t =
    if ltb 0xFFFF (length t.to_name)
    then (t, err invariant_violation)
    else (push_name a t, ok (length t.to_name))

unfoldable pub intern : Attribute → AttributeIntern → AttributeIntern × Result InternError ℕ
intern a t = intern_as (id_of a t) a t
