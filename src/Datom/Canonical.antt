-- ===== src/Datom/Canonical.antt =====
-- Only canonical bytes are accepted, but for -0.0.
use ferratomic.Prelude.{
  ℕ, ◌+◌, ◌≤◌, ◌≡◌, ◌≢◌, ap, ◌∙◌, inl, inr, not, arith, length, length-drop, take, drop, All, ◌==◌,
}
use ferratomic.Prelude.Results.{ok}
use ferratomic.Prelude.Bytes.{Bytes, slice}
use ferratomic.Clock.TxId.{TxId}
use ferratomic.Datom.Types.{
  EntityId, Attribute, Op, Value, double, negative_zero, Datom, IsValue, IsDatom,
}
use ferratomic.Datom.Encode.{canonical_value_bytes, canonical_bytes}
use ferratomic.Datom.Decode.{
  parse_entity, parse_attribute, parse_tx, parse_op, parse_canonical_value, from_canonical_bytes,
  finish,
}
use ferratomic.Datom.Inverse.{IsByte, All-drop, slice_whole, if-cases, bind_ok, value_of}
use ferratomic.Datom.FixedRead.{Reads}
use ferratomic.Datom.ValuesRead.{parse_canonical_value_ok}
use ferratomic.Datom.FieldsRead.{
  Spans, parse_entity_ok, parse_op_ok, parse_attribute_ok, parse_tx_ok, Spans-glue,
}

slice_from : (i n : ℕ) (buf : Bytes) → take n (drop i buf) ≡ slice buf i (i + n)
unfolding slice
slice_from i n buf = ap (λ k. take k (drop i buf)) (omega arith)

parse_value_ok :
    (buf : Bytes) (i : ℕ) {v : Value} {n : ℕ}
    → All IsByte buf
    → i ≤ length buf
    → parse_canonical_value (drop i buf) ≡ ok (v, n)
    → IsValue v × (v ≢ double negative_zero → Spans buf i (i + n) (canonical_value_bytes v))
parse_value_ok buf i {v} {n} small h e =
    let r : Reads (drop i buf) v n =
      parse_canonical_value_ok (drop i buf) (All-drop i buf small) e in
    (
      r.value,
      λ other. record {
        forward = omega arith;
        within = omega (arith, r.within, length-drop i buf, h);
        same = r.same other ∙ slice_from i n buf;
      },
    )

finish_ok :
    (len offset : ℕ) (d : Datom) {e : Datom} → finish len offset d ≡ ok e → (offset ≡ len) × (e ≡ d)
finish_ok len offset d h = elim (if-cases (not (offset == len)) h) [
  | inl (_, bad) ↦ cc
  | inr (same, r) ↦ (ground arith, value_of r)
]

-- The parsers that have run when a datom is returned.
record Parsed (buf : Bytes) (d : Datom) : Type 0 where
  o1 : ℕ
  o2 : ℕ
  n : ℕ
  o3 : ℕ
  entity : parse_entity buf 0 ≡ ok (d.entity, o1)
  attribute : parse_attribute buf o1 ≡ ok (d.attribute, o2)
  value : parse_canonical_value (drop o2 buf) ≡ ok (d.value, n)
  tx : parse_tx buf (o2 + n) ≡ ok (d.tx, o3)
  op : parse_op buf o3 ≡ ok (d.op, length buf)

Parsed-from :
    (buf : Bytes) {d : Datom} (o1 o2 n o3 o4 : ℕ) (e : EntityId) (a : Attribute) (v : Value)
    (t : TxId) (op : Op)
    → parse_entity buf 0 ≡ ok (e, o1)
    → parse_attribute buf o1 ≡ ok (a, o2)
    → parse_canonical_value (drop o2 buf) ≡ ok (v, n)
    → parse_tx buf (o2 + n) ≡ ok (t, o3)
    → parse_op buf o3 ≡ ok (op, o4)
    → finish (length buf) o4 (record { entity = e; attribute = a; value = v; tx = t; op = op })
      ≡ ok d
    → Parsed buf d
Parsed-from buf o1 o2 n o3 o4 e a v t op p1 p2 p3 p4 p5 h =
    let (last, same) = finish_ok (length buf) o4 _ h in
    rw same (record {
      o1 = o1;
      o2 = o2;
      n = n;
      o3 = o3;
      entity = p1;
      attribute = p2;
      value = p3;
      tx = p4;
      op = p5 ∙ ap (λ m. ok (op, m)) last;
    })

parsed : (buf : Bytes) {d : Datom} → from_canonical_bytes buf ≡ ok d → Parsed buf d
unfolding from_canonical_bytes
parsed buf h0 =
    let ((e, o1), p1, h1) = bind_ok (parse_entity buf 0) _ h0 in
    let ((a, o2), p2, h2) = bind_ok (parse_attribute buf o1) _ h1 in
    let ((v, n), p3, h3) = bind_ok (parse_canonical_value (drop o2 buf)) _ h2 in
    let ((t, o3), p4, h4) = bind_ok (parse_tx buf (o2 + n)) _ h3 in
    let ((op, o4), p5, h5) = bind_ok (parse_op buf o3) _ h4 in
    Parsed-from buf o1 o2 n o3 o4 e a v t op p1 p2 p3 p4 p5 h5

-- Bytes that are accepted are those of a datom of the types' ranges, and are its canonical bytes,
-- unless its value is -0.0.
pub canonical_bytes-from_canonical_bytes :
    (buf : Bytes) (d : Datom)
    → All IsByte buf
    → from_canonical_bytes buf ≡ ok d
    → IsDatom d × (d.value ≢ double negative_zero → canonical_bytes d ≡ buf)
unfolding canonical_bytes
canonical_bytes-from_canonical_bytes buf d small h =
    let p = parsed buf h in
    let (entity, size) = parse_entity_ok buf 0 p.entity in
    let (attribute, fits, name) = parse_attribute_ok buf p.o1 small p.attribute in
    let (valid, value) = parse_value_ok buf p.o2 small attribute.within p.value in
    let (tx, range) = parse_tx_ok buf (p.o2 + p.n) small p.tx in
    let op = parse_op_ok buf p.o3 p.op in
    (
      record { entity = size; attribute = fits; name = name; value = valid; tx = range },
      λ other.
          (Spans-glue entity
            (Spans-glue attribute (Spans-glue (value other) (Spans-glue tx op)))).same
          ∙ slice_whole buf,
    )
