-- ===== src/Examples/Codec.antt =====
-- A concrete encoding of datoms, in place of bincode: a length before each string, a tag before
-- each value, one number for each integer.
use ferratomic.Prelude.{
  ℕ, zero, suc, ◌≡◌, refl, ap, ◌∙◌, Bool, true, false, Option, none, some, List, [], ◌∷◌, ◌++◌, map,
  length, take, drop, take-append, drop-append,
}
use ferratomic.Prelude.Bytes.{Bytes}
use ferratomic.Datom.Types.{
  Op, assert, retract, Value, keyword, string, long, double, bool, instant, uuid, bytes, ref,
  big_int, big_dec, Datom,
}
use ferratomic.Db.Wire.{
  WireEntityId, WireValue, wire_keyword, wire_string, wire_long, wire_double, wire_bool,
  wire_instant, wire_uuid, wire_bytes, wire_ref, wire_big_int, wire_big_dec, WireDatom,
  trusted_entity, trusted_value, into_trusted,
}
use ferratomic.Db.Entries.{ReadsBack}

abbrev put_bytes : Bytes → Bytes → Bytes
put_bytes s rest = length s ∷ (s ++ rest)

abbrev put_bool : Bool → ℕ
put_bool true = 1
put_bool false = 0

abbrev put_op : Op → ℕ
put_op assert = 1
put_op retract = 0

abbrev put_value : Value → Bytes → Bytes
put_value (keyword s) rest = 0 ∷ 0 ∷ put_bytes s rest
put_value (string s) rest = 0 ∷ 1 ∷ put_bytes s rest
put_value (uuid u) rest = 0 ∷ 2 ∷ put_bytes u rest
put_value (bytes s) rest = 0 ∷ 3 ∷ put_bytes s rest
put_value (ref e) rest = 0 ∷ 4 ∷ put_bytes e rest
put_value (long n) rest = 1 ∷ 0 ∷ n ∷ rest
put_value (double f) rest = 1 ∷ 1 ∷ f ∷ rest
put_value (bool b) rest = 1 ∷ 2 ∷ put_bool b ∷ rest
put_value (instant n) rest = 1 ∷ 3 ∷ n ∷ rest
put_value (big_int n) rest = 1 ∷ 4 ∷ n ∷ rest
put_value (big_dec n) rest = 1 ∷ 5 ∷ n ∷ rest

abbrev put : Datom → Bytes → Bytes
put d rest = put_bytes d.entity (
    put_bytes d.attribute
      (put_value d.value (d.tx.physical ∷ d.tx.logical ∷ put_bytes d.tx.node (put_op d.op ∷ rest))))

abbrev pub put_each : List Datom → Bytes
put_each [] = []
put_each (d ∷ ds) = put d (put_each ds)

abbrev get_bytes {ℓ} : {A : Type ℓ} → Bytes → (Bytes → Bytes → Option A) → Option A
get_bytes [] go_on = none
get_bytes (n ∷ rest) go_on = go_on (take n rest) (drop n rest)

abbrev get_number {ℓ} : {A : Type ℓ} → Bytes → (ℕ → Bytes → Option A) → Option A
get_number [] go_on = none
get_number (n ∷ rest) go_on = go_on n rest

abbrev get_bool : ℕ → Bool
get_bool zero = false
get_bool (suc n) = true

abbrev get_op : ℕ → Op
get_op zero = retract
get_op (suc n) = assert

abbrev entity : Bytes → WireEntityId
entity s = record { as_bytes = s }

abbrev of_bytes : ℕ → Bytes → WireValue
of_bytes zero s = wire_keyword s
of_bytes (suc zero) s = wire_string s
of_bytes (suc (suc zero)) s = wire_uuid s
of_bytes (suc (suc (suc zero))) s = wire_bytes s
of_bytes (suc (suc (suc (suc n)))) s = wire_ref (entity s)

abbrev of_number : ℕ → ℕ → WireValue
of_number zero n = wire_long n
of_number (suc zero) n = wire_double n
of_number (suc (suc zero)) n = wire_bool (get_bool n)
of_number (suc (suc (suc zero))) n = wire_instant n
of_number (suc (suc (suc (suc zero)))) n = wire_big_int n
of_number (suc (suc (suc (suc (suc k))))) n = wire_big_dec n

abbrev get_class {ℓ} : {A : Type ℓ} → ℕ → ℕ → Bytes → (WireValue → Bytes → Option A) → Option A
get_class zero kind l go_on = get_bytes l (λ s. go_on (of_bytes kind s))
get_class (suc n) kind l go_on = get_number l (λ n. go_on (of_number kind n))

abbrev get_value {ℓ} : {A : Type ℓ} → Bytes → (WireValue → Bytes → Option A) → Option A
get_value l go_on =
    get_number l (λ class l1. get_number l1 (λ kind rest. get_class class kind rest go_on))

-- The continuations, by what has been read
abbrev Rest : Type 0
Rest = WireDatom → Bytes → Option (List WireDatom)

abbrev after_node :
    Rest → Bytes → Bytes → WireValue → ℕ → ℕ → Bytes → Bytes → Option (List WireDatom)
after_node go_on e a v physical logical node l = get_number l (λ op. go_on (record {
  entity = entity e;
  attribute = a;
  value = v;
  tx = record { physical = physical; logical = logical; node = node };
  op = get_op op;
}))

abbrev after_value : Rest → Bytes → Bytes → WireValue → Bytes → Option (List WireDatom)
after_value go_on e a v l = get_number l (λ physical l1.
    get_number l1 (λ logical l2. get_bytes l2 (after_node go_on e a v physical logical)))

abbrev after_attribute : Rest → Bytes → Bytes → Bytes → Option (List WireDatom)
after_attribute go_on e a l = get_value l (after_value go_on e a)

abbrev after_entity : Rest → Bytes → Bytes → Option (List WireDatom)
after_entity go_on e l = get_bytes l (after_attribute go_on e)

abbrev get : Bytes → Rest → Option (List WireDatom)
get l go_on = get_bytes l (after_entity go_on)

abbrev push : WireDatom → Option (List WireDatom) → Option (List WireDatom)
push d none = none
push d (some ds) = some (d ∷ ds)

abbrev get_each : ℕ → Bytes → Option (List WireDatom)
get_each zero rest = some []
get_each (suc n) rest = get rest (λ d l. push d (get_each n l))

abbrev pub serialize : List Datom → Option Bytes
serialize ds = some (length ds ∷ put_each ds)

abbrev pub deserialize : Bytes → Option (List WireDatom)
deserialize [] = none
deserialize (n ∷ rest) = get_each n rest

abbrev wire_value : Value → WireValue
wire_value (keyword s) = wire_keyword s
wire_value (string s) = wire_string s
wire_value (long n) = wire_long n
wire_value (double f) = wire_double f
wire_value (bool b) = wire_bool b
wire_value (instant n) = wire_instant n
wire_value (uuid u) = wire_uuid u
wire_value (bytes s) = wire_bytes s
wire_value (ref e) = wire_ref (entity e)
wire_value (big_int n) = wire_big_int n
wire_value (big_dec n) = wire_big_dec n

abbrev wire : Datom → WireDatom
wire d = record {
  entity = entity d.entity;
  attribute = d.attribute;
  value = wire_value d.value;
  tx = d.tx;
  op = d.op;
}

trusted_value-wire : (v : Value) → trusted_value (wire_value v) ≡ v
unfolding trusted_value trusted_entity
trusted_value-wire (keyword s) = refl
trusted_value-wire (string x) = refl
trusted_value-wire (long x) = refl
trusted_value-wire (double x) = refl
trusted_value-wire (bool x) = refl
trusted_value-wire (instant x) = refl
trusted_value-wire (uuid x) = refl
trusted_value-wire (bytes x) = refl
trusted_value-wire (ref x) = refl
trusted_value-wire (big_int x) = refl
trusted_value-wire (big_dec x) = refl

into_trusted-wire : (d : Datom) → into_trusted (wire d) ≡ d
unfolding into_trusted trusted_entity
into_trusted-wire d = ap (λ v. record d { value = v }) (trusted_value-wire d.value)

get_bytes-put {ℓ} :
    {A : Type ℓ} (s rest : Bytes) (go_on : Bytes → Bytes → Option A)
    → get_bytes (put_bytes s rest) go_on ≡ go_on s rest
get_bytes-put s rest go_on = rw (take-append s rest, drop-append s rest) refl

get_bool-put : (b : Bool) → get_bool (put_bool b) ≡ b
get_bool-put true = refl
get_bool-put false = refl

get_op-put : (o : Op) → get_op (put_op o) ≡ o
get_op-put assert = refl
get_op-put retract = refl

get_value-put {ℓ} :
    {A : Type ℓ} (v : Value) (rest : Bytes) (go_on : WireValue → Bytes → Option A)
    → get_value (put_value v rest) go_on ≡ go_on (wire_value v) rest
get_value-put (keyword s) rest go_on = get_bytes-put s rest (λ s. go_on (wire_keyword s))
get_value-put (string s) rest go_on = get_bytes-put s rest (λ s. go_on (wire_string s))
get_value-put (long n) rest go_on = refl
get_value-put (double f) rest go_on = refl
get_value-put (bool b) rest go_on = rw (get_bool-put b) refl
get_value-put (instant n) rest go_on = refl
get_value-put (uuid u) rest go_on = get_bytes-put u rest (λ s. go_on (wire_uuid s))
get_value-put (bytes s) rest go_on = get_bytes-put s rest (λ s. go_on (wire_bytes s))
get_value-put (ref e) rest go_on = get_bytes-put e rest (λ s. go_on (wire_ref (entity s)))
get_value-put (big_int n) rest go_on = refl
get_value-put (big_dec n) rest go_on = refl

get-put : (d : Datom) (rest : Bytes) (go_on : Rest) → get (put d rest) go_on ≡ go_on (wire d) rest
get-put d rest go_on =
    let l3 : Bytes = put_bytes d.tx.node (put_op d.op ∷ rest) in
    let l2 : Bytes = d.tx.physical ∷ d.tx.logical ∷ l3 in
    let l1 : Bytes = put_value d.value l2 in
    let e = d.entity in
    let a = d.attribute in
    let v = wire_value d.value in
    get_bytes-put e (put_bytes a l1) (after_entity go_on)
    ∙ get_bytes-put a l1 (after_attribute go_on e)
    ∙ get_value-put d.value l2 (after_value go_on e a)
    ∙ get_bytes-put d.tx.node (put_op d.op ∷ rest)
        (after_node go_on e a v d.tx.physical d.tx.logical)
    ∙ ap (λ o. go_on (record (wire d) { op = o }) rest) (get_op-put d.op)

get_each-put : (ds : List Datom) → get_each (length ds) (put_each ds) ≡ some (map wire ds)
get_each-put [] = refl
get_each-put (d ∷ ds) =
    get-put d (put_each ds) (λ x l. push x (get_each (length ds) l))
    ∙ ap (push (wire d)) (get_each-put ds)

trusted_each : (ds : List Datom) → map into_trusted (map wire ds) ≡ ds
trusted_each [] = refl
trusted_each (d ∷ ds) = rw (into_trusted-wire d, trusted_each ds) refl

pub reads_back : ReadsBack serialize deserialize
reads_back ds payload e =
    let same : payload ≡ length ds ∷ put_each ds = cc in
    (map wire ds, rw same (get_each-put ds), trusted_each ds)
