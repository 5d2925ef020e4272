-- ===== src/Datom/RoundTrip.antt =====
-- A datom is read back from its canonical bytes, and nothing may follow them.
use ferratomic.Prelude.{
  ℕ, ◌+◌, ◌<◌, ◌≡◌, refl, sym, ap, ◌∙◌, [], ◌∷◌, ◌++◌, arith, length, length-append, append_assoc,
  drop, append-nil,
}
use ferratomic.Prelude.Results.{ok, err}
use ferratomic.Prelude.Bytes.{Bytes, drop_prefix}
use ferratomic.Clock.TxId.{TxId}
use ferratomic.Datom.Types.{EntityId, Attribute, Op, Value, Datom, IsDatom}
use ferratomic.Datom.Encode.{canonical_attr_bytes, canonical_tx_bytes, op_byte, canonical_bytes}
use ferratomic.Datom.Decode.{
  parse_entity, parse_attribute, parse_tx, parse_op, parse_canonical_value, from_canonical_bytes,
  finish, trailing_bytes,
}
use ferratomic.Datom.Values.{normal, parse_canonical_value-append}
use ferratomic.Datom.Fields.{
  parse_entity-append, parse_attribute-append, parse_tx-append, parse_op-append,
  length-canonical_tx_bytes,
}

-- The parsers one after the other.
chain :
    (buf : Bytes) (o1 o2 n o3 o4 : ℕ) (e : EntityId) (a : Attribute) (v : Value) (t : TxId)
    (op : Op)
    → parse_entity buf 0 ≡ ok (e, o1)
    → parse_attribute buf o1 ≡ ok (a, o2)
    → parse_canonical_value (drop o2 buf) ≡ ok (v, n)
    → parse_tx buf (o2 + n) ≡ ok (t, o3)
    → parse_op buf o3 ≡ ok (op, o4)
    → from_canonical_bytes buf
      ≡ finish (length buf) o4 (record { entity = e; attribute = a; value = v; tx = t; op = op })
unfolding from_canonical_bytes
chain buf o1 o2 n o3 o4 e a v t op p1 p2 p3 p4 p5 = rw (p1, p2, p3, p4, p5) refl

-- The datom that is read back.
abbrev pub normal_datom : Datom → Datom
normal_datom d = record d { value = normal d.value }

-- The canonical bytes, with other bytes in place of the value's.
abbrev pub bytes_with : Bytes → Datom → Bytes
bytes_with code d =
    d.entity
    ++ (canonical_attr_bytes d.attribute
        ++ (code ++ (canonical_tx_bytes d.tx ++ op_byte d.op ∷ [])))

module _ (d : Datom) (valid : IsDatom d) (code : Bytes) (w : Value)
    (reads : (s : Bytes) → parse_canonical_value (code ++ s) ≡ ok (w, length code))
    (rest : Bytes) where
  abbrev behind_tx : Bytes
  behind_tx = op_byte d.op ∷ rest

  abbrev behind_value : Bytes
  behind_value = canonical_tx_bytes d.tx ++ behind_tx

  abbrev behind_attribute : Bytes
  behind_attribute = code ++ behind_value

  split :
      bytes_with code d ++ rest ≡ d.entity ++ (canonical_attr_bytes d.attribute ++ behind_attribute)
  split =
      append_assoc d.entity _ rest
      ∙ ap (λ r. d.entity ++ r)
          (append_assoc (canonical_attr_bytes d.attribute) _ rest
            ∙ ap (λ r. canonical_attr_bytes d.attribute ++ r)
                (append_assoc (code) _ rest
                  ∙ ap (λ r. code ++ r) (append_assoc (canonical_tx_bytes d.tx) _ rest)))

  length-bytes_with :
      length (bytes_with code d)
      ≡ 32 + length (canonical_attr_bytes d.attribute) + length (code) + 28 + 1
  length-bytes_with =
      let a : Bytes = canonical_attr_bytes d.attribute in
      let t : Bytes = canonical_tx_bytes d.tx in
      omega (
        arith,
        length-append d.entity (a ++ (code ++ (t ++ op_byte d.op ∷ []))),
        length-append a (code ++ (t ++ op_byte d.op ∷ [])),
        length-append code (t ++ op_byte d.op ∷ []),
        length-append t (op_byte d.op ∷ []),
        length-canonical_tx_bytes d.tx valid.tx,
        valid.entity,
      )

  from_canonical_bytes-bytes_with :
      from_canonical_bytes (bytes_with code d ++ rest)
      ≡ finish
          (length (bytes_with code d ++ rest))
          (length (bytes_with code d))
          (record d { value = w })
  from_canonical_bytes-bytes_with =
      let e : Bytes = d.entity in
      let a : Bytes = canonical_attr_bytes d.attribute in
      let t : Bytes = canonical_tx_bytes d.tx in
      let buf : Bytes = bytes_with code d ++ rest in
      let front2 : buf ≡ (e ++ a) ++ behind_attribute =
        split ∙ sym (append_assoc e a behind_attribute) in
      let front3 : buf ≡ ((e ++ a) ++ code) ++ behind_value =
        front2 ∙ sym (append_assoc (e ++ a) code behind_value) in
      let front4 : buf ≡ (((e ++ a) ++ code) ++ t) ++ behind_tx =
        front3 ∙ sym (append_assoc ((e ++ a) ++ code) t behind_tx) in
      let o2 : ℕ = 32 + length a in
      let o3 : ℕ = o2 + length code + 28 in
      chain buf 32 o2 (length code) o3 (o3 + 1) d.entity d.attribute w d.tx d.op
        (ap (λ b. parse_entity b 0) split ∙ parse_entity-append e _ valid.entity)
        (ap (λ b. parse_attribute b 32) split
          ∙ parse_attribute-append e 32 (sym valid.entity) d.attribute _ valid.attribute valid.name)
        (ap parse_canonical_value (
            ap (drop o2) front2
            ∙ drop_prefix o2 (e ++ a) behind_attribute
                (omega (arith, length-append e a, valid.entity)))
          ∙ reads behind_value)
        (ap (λ b. parse_tx b (o2 + length code)) front3
          ∙ parse_tx-append ((e ++ a) ++ code) (o2 + length code)
              (omega (arith, length-append e a, length-append (e ++ a) code, valid.entity)) d.tx _
              valid.tx)
        (ap (λ b. parse_op b o3) front4
          ∙ parse_op-append (((e ++ a) ++ code) ++ t) o3
              (omega (
                arith,
                length-append e a,
                length-append (e ++ a) code,
                length-append ((e ++ a) ++ code) t,
                length-canonical_tx_bytes d.tx valid.tx,
                valid.entity,
              ))
              d.op rest)
      ∙ ap (λ n. finish (length buf) n (record d { value = w })) (sym length-bytes_with)

finish_whole : (len offset : ℕ) (d : Datom) → offset ≡ len → finish len offset d ≡ ok d
finish_whole len offset d h = ground arith

finish_early :
    (len offset : ℕ) (d : Datom) → offset < len → finish len offset d ≡ err trailing_bytes
finish_early len offset d h = ground arith

module _ (d : Datom) (valid : IsDatom d) (code : Bytes) (w : Value)
    (reads : (s : Bytes) → parse_canonical_value (code ++ s) ≡ ok (w, length code)) where
  pub accepted : from_canonical_bytes (bytes_with code d) ≡ ok (record d { value = w })
  accepted =
      let buf : Bytes = bytes_with code d in
      ap from_canonical_bytes (sym (append-nil buf))
      ∙ from_canonical_bytes-bytes_with d valid code w reads []
      ∙ finish_whole (length (buf ++ [])) (length buf) (record d { value = w })
          (omega (arith, length-append {A = ℕ} buf []))

  refused_behind :
      (x : ℕ) (more : Bytes)
      → from_canonical_bytes (bytes_with code d ++ x ∷ more) ≡ err trailing_bytes
  refused_behind x more =
      let buf : Bytes = bytes_with code d in
      from_canonical_bytes-bytes_with d valid code w reads (x ∷ more)
      ∙ finish_early (length (buf ++ x ∷ more)) (length buf) (record d { value = w })
          (omega (arith, length-append buf (x ∷ more)))

-- A datom whose keywords and attribute name fit their length prefixes is read back from its
-- canonical bytes, except that a value -0.0 is read back as 0.0; with any bytes behind them, the
-- bytes are refused.
pub from_canonical_bytes-canonical_bytes :
    (d : Datom)
    → IsDatom d
    → (from_canonical_bytes (canonical_bytes d) ≡ ok (normal_datom d))
      × ((x : ℕ) (more : Bytes)
          → from_canonical_bytes (canonical_bytes d ++ x ∷ more) ≡ err trailing_bytes)
unfolding canonical_bytes
from_canonical_bytes-canonical_bytes d valid = (
  accepted d valid _ (normal d.value) (λ s. parse_canonical_value-append d.value s valid.value),
  refused_behind d valid _ (normal d.value)
      (λ s. parse_canonical_value-append d.value s valid.value),
)
