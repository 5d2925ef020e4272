-- ===== src/Datom/Fields.antt =====
-- The other fields of a datom are read back, wherever they stand.
use ferratomic.Prelude.{
  ℕ, ◌+◌, ◌^◌, min, ◌<◌, ◌≡◌, refl, sym, ap, ◌∙◌, true, [], ◌∷◌, ◌++◌, arith, length, length-append,
  append_assoc, get_or,
}
use ferratomic.Prelude.Results.{ok}
use ferratomic.Prelude.Bytes.{
  Bytes, slice, to_le_bytes, from_le_bytes, length-to_le_bytes, from_le_bytes-to_le_bytes,
  slice_second, slice_first,
}
use ferratomic.Clock.TxId.{TxId}
use ferratomic.Datom.Utf8.{is_utf8}
use ferratomic.Datom.Types.{Op, assert, retract, IsTx}
use ferratomic.Datom.Encode.{canonical_attr_bytes, canonical_tx_bytes, op_byte}
use ferratomic.Datom.Decode.{parse_entity, parse_attribute, parse_tx, parse_op}

pub parse_entity-append : (e rest : Bytes) → length e ≡ 32 → parse_entity (e ++ rest) 0 ≡ ok (e, 32)
unfolding parse_entity
parse_entity-append e rest h =
    rw (slice_first e rest 32 (sym h)) (ground (arith, length-append e rest))

get_or-length : (pre rest : Bytes) (b : ℕ) → get_or (pre ++ b ∷ rest) (length pre) 0 ≡ b
get_or-length [] rest b = refl
get_or-length (x ∷ pre) rest b = get_or-length pre rest b

pub length-canonical_tx_bytes : (t : TxId) → IsTx t → length (canonical_tx_bytes t) ≡ 28
unfolding canonical_tx_bytes
length-canonical_tx_bytes t h = omega (
  arith,
  length-append (to_le_bytes 8 t.physical) (to_le_bytes 4 t.logical ++ t.node),
  length-append (to_le_bytes 4 t.logical) t.node,
  length-to_le_bytes 8 t.physical,
  length-to_le_bytes 4 t.logical,
  h.node,
)

module _ (pre : Bytes) (offset : ℕ) (here : offset ≡ length pre) where
  pub parse_attribute-append :
      (a rest : Bytes)
      → length a < 256 ^ 2
      → is_utf8 a ≡ true
      → parse_attribute (pre ++ (canonical_attr_bytes a ++ rest)) offset
        ≡ ok (a, offset + length (canonical_attr_bytes a))
  unfolding parse_attribute canonical_attr_bytes
  parse_attribute-append a rest small name =
      let size : Bytes = to_le_bytes 2 (min (length a) 0xFFFF) in
      let wide : length size ≡ 2 = length-to_le_bytes 2 (min (length a) 0xFFFF) in
      let buf : Bytes = pre ++ ((size ++ a) ++ rest) in
      let split : buf ≡ pre ++ (size ++ (a ++ rest)) =
        ap (λ r. pre ++ r) (append_assoc size a rest) in
      let len : from_le_bytes (slice buf offset (offset + 2)) ≡ length a =
        ap from_le_bytes (
          ap (λ b. slice b offset (offset + 2)) split
          ∙ slice_second pre size (a ++ rest) offset (offset + 2) here (omega arith))
        ∙ from_le_bytes-to_le_bytes 2 (min (length a) 0xFFFF) (omega arith)
        ∙ omega arith in
      let content : slice buf (offset + 2) (offset + 2 + length a) ≡ a =
        ap (λ b. slice b (offset + 2) (offset + 2 + length a))
          (split ∙ sym (append_assoc pre size (a ++ rest)))
        ∙ slice_second (pre ++ size) a rest (offset + 2) (offset + 2 + length a)
            (omega (arith, length-append pre size)) refl in
      rw (len, content)
        (ground (
          arith,
          name,
          length-append pre ((size ++ a) ++ rest),
          length-append (size ++ a) rest,
          length-append size a,
        ))

  pub parse_tx-append :
      (t : TxId) (rest : Bytes)
      → IsTx t
      → parse_tx (pre ++ (canonical_tx_bytes t ++ rest)) offset ≡ ok (t, offset + 28)
  unfolding parse_tx canonical_tx_bytes
  parse_tx-append t rest h =
      let p : Bytes = to_le_bytes 8 t.physical in
      let l : Bytes = to_le_bytes 4 t.logical in
      let wide_p : length p ≡ 8 = length-to_le_bytes 8 t.physical in
      let wide_l : length l ≡ 4 = length-to_le_bytes 4 t.logical in
      let buf : Bytes = pre ++ ((p ++ (l ++ t.node)) ++ rest) in
      let split1 : buf ≡ pre ++ (p ++ ((l ++ t.node) ++ rest)) =
        ap (λ r. pre ++ r) (append_assoc p (l ++ t.node) rest) in
      let split2 : buf ≡ (pre ++ p) ++ (l ++ (t.node ++ rest)) =
        split1
        ∙ sym (append_assoc pre p ((l ++ t.node) ++ rest))
        ∙ ap (λ r. (pre ++ p) ++ r) (append_assoc l t.node rest) in
      let split3 : buf ≡ ((pre ++ p) ++ l) ++ (t.node ++ rest) =
        split2 ∙ sym (append_assoc (pre ++ p) l (t.node ++ rest)) in
      let physical : from_le_bytes (slice buf offset (offset + 8)) ≡ t.physical =
        ap from_le_bytes (
          ap (λ b. slice b offset (offset + 8)) split1
          ∙ slice_second pre p _ offset (offset + 8) here (omega arith))
        ∙ from_le_bytes-to_le_bytes 8 t.physical h.physical in
      let logical : from_le_bytes (slice buf (offset + 8) (offset + 12)) ≡ t.logical =
        ap from_le_bytes (
          ap (λ b. slice b (offset + 8) (offset + 12)) split2
          ∙ slice_second (pre ++ p) l _ (offset + 8) (offset + 12)
              (omega (arith, length-append pre p)) (omega arith))
        ∙ from_le_bytes-to_le_bytes 4 t.logical h.logical in
      let node : slice buf (offset + 12) (offset + 28) ≡ t.node =
        ap (λ b. slice b (offset + 12) (offset + 28)) split3
        ∙ slice_second ((pre ++ p) ++ l) t.node rest (offset + 12) (offset + 28)
            (omega (arith, length-append pre p, length-append (pre ++ p) l))
            (omega (arith, h.node)) in
      rw (physical, logical, node)
        (ground (
          arith,
          h.node,
          length-append pre ((p ++ (l ++ t.node)) ++ rest),
          length-append (p ++ (l ++ t.node)) rest,
          length-append p (l ++ t.node),
          length-append l t.node,
        ))

  pub parse_op-append :
      (op : Op) (rest : Bytes) → parse_op (pre ++ op_byte op ∷ rest) offset ≡ ok (op, offset + 1)
  unfolding parse_op
  parse_op-append assert rest =
      rw (here, get_or-length pre rest 0) (ground (arith, length-append pre (0 ∷ rest)))
  parse_op-append retract rest =
      rw (here, get_or-length pre rest 1) (ground (arith, length-append pre (1 ∷ rest)))
