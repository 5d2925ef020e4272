-- ===== src/Datom/FieldsRead.antt =====
-- The bytes from which the other fields are read are their canonical bytes.
use ferratomic.Prelude.{
  ℕ, zero, suc, ◌+◌, ◌-◌, ◌^◌, min, ◌≤◌, ◌<◌, ◌≡◌, refl, ap, ◌∙◌, inl, inr, true, [], ◌∷◌, ◌++◌,
  leb, ltb, arith, length, drop, All, ◌==◌, ==_iff, get_or,
}
use ferratomic.Prelude.Results.{Result, ok}
use ferratomic.Prelude.Bytes.{Bytes, slice, to_le_bytes, from_le_bytes}
use ferratomic.Clock.TxId.{TxId}
use ferratomic.Datom.Utf8.{is_utf8}
use ferratomic.Datom.Types.{EntityId, Attribute, Op, IsTx}
use ferratomic.Datom.Encode.{canonical_attr_bytes, canonical_tx_bytes, op_byte}
use ferratomic.Datom.Decode.{DecodeError, parse_entity, parse_attribute, parse_tx, parse_op}
use ferratomic.Datom.Inverse.{
  IsByte, to_le_bytes-from_le_bytes, length-slice, slice-All, slice_glue, if-cases, value_of,
}

-- The bytes between two offsets.
pub record Spans (buf : Bytes) (from to : ℕ) (s : Bytes) : Type 0 where
  pub forward : from ≤ to
  pub within : to ≤ length buf
  pub same : s ≡ slice buf from to

pub parse_entity_ok :
    (buf : Bytes) (i : ℕ) {e : EntityId} {j : ℕ}
    → parse_entity buf i ≡ ok (e, j)
    → Spans buf i j e × (length e ≡ 32)
unfolding parse_entity
parse_entity_ok buf i {e} {j} h = elim (if-cases (ltb (length buf) (i + 32)) h) [
  | inl (_, bad) ↦ cc
  | inr (wide, r) ↦
      let big : i + 32 ≤ length buf = ground arith in
      let e1 : e ≡ slice buf i (i + 32) = ap (λ p. p.0) (value_of r) in
      let e2 : j ≡ i + 32 = ap (λ p. p.1) (value_of r) in
      rw (e1, e2)
        (
          record { forward = omega arith; within = big; same = refl },
          length-slice buf i (i + 32) big ∙ omega arith,
        )
]

drop_at : (buf : Bytes) (i : ℕ) → i < length buf → drop i buf ≡ get_or buf i 0 ∷ drop (suc i) buf
drop_at [] i h = absurd (omega arith)
drop_at (b ∷ buf) zero h = refl
drop_at (b ∷ buf) (suc i) h = drop_at buf i (omega arith)

one_byte :
    (buf : Bytes) (i b : ℕ)
    → i < length buf
    → (get_or buf i 0 == b) ≡ true
    → Spans buf i (i + 1) (b ∷ [])
unfolding slice
one_byte buf i b h e =
    let one : i + 1 - i ≡ 1 = omega arith in
    record {
      forward = omega arith;
      within = omega arith;
      same = rw (one, drop_at buf i h, (==_iff (get_or buf i 0) b).0 e) refl;
    }

same_op :
    {buf : Bytes} {op o : Op} {i j k : ℕ}
    → ◌≡◌ {A = Result DecodeError (Op × ℕ)} (ok (o, k)) (ok (op, j))
    → Spans buf i k (op_byte o ∷ [])
    → Spans buf i j (op_byte op ∷ [])
same_op {buf} {op} {o} {i} {j} {k} e s =
    let e1 : op ≡ o = ap (λ p. p.0) (value_of e) in
    let e2 : j ≡ k = ap (λ p. p.1) (value_of e) in rw (e1, e2) s

pub parse_op_ok :
    (buf : Bytes) (i : ℕ) {op : Op} {j : ℕ}
    → parse_op buf i ≡ ok (op, j)
    → Spans buf i j (op_byte op ∷ [])
unfolding parse_op
parse_op_ok buf i {op} {j} h = elim (if-cases (leb (length buf) i) h) [
  | inl (_, bad) ↦ cc
  | inr (wide, h) ↦
      let big : i < length buf = ground arith in
      elim (if-cases (get_or buf i 0 == 0x00) h) [
        | inl (e, r) ↦ same_op r (one_byte buf i 0 big e)
        | inr (_, h) ↦ elim (if-cases (get_or buf i 0 == 0x01) h) [
          | inl (e, r) ↦ same_op r (one_byte buf i 1 big e)
          | inr (_, bad) ↦ cc
        ]
      ]
]

number_at :
    (k : ℕ) (buf : Bytes) (i j : ℕ)
    → j ≡ i + k
    → j ≤ length buf
    → All IsByte buf
    → (from_le_bytes (slice buf i j) < 256 ^ k)
      × (to_le_bytes k (from_le_bytes (slice buf i j)) ≡ slice buf i j)
number_at k buf i j e h small =
    to_le_bytes-from_le_bytes {k = k} (slice buf i j) (length-slice buf i j h ∙ omega (arith, e))
      (slice-All buf i j small)

pub parse_attribute_ok :
    (buf : Bytes) (i : ℕ) {a : Attribute} {j : ℕ}
    → All IsByte buf
    → parse_attribute buf i ≡ ok (a, j)
    → Spans buf i j (canonical_attr_bytes a) × (length a < 256 ^ 2) × (is_utf8 a ≡ true)
unfolding parse_attribute canonical_attr_bytes
parse_attribute_ok buf i {a} {j} small h =
    let len : ℕ = from_le_bytes (slice buf i (i + 2)) in
    let name : Bytes = slice buf (i + 2) (i + 2 + len) in
    elim (if-cases (ltb (length buf) (i + 2)) h) [
      | inl (_, bad) ↦ cc
      | inr (wide, h) ↦ elim (if-cases (ltb (length buf) (i + 2 + len)) h) [
        | inl (_, bad) ↦ cc
        | inr (wider, h) ↦ elim (if-cases (is_utf8 name) h) [
          | inl (fine, r) ↦
              let big : i + 2 ≤ length buf = ground arith in
              let bigger : i + 2 + len ≤ length buf = ground arith in
              let e1 : a ≡ name = ap (λ p. p.0) (value_of r) in
              let e2 : j ≡ i + 2 + len = ap (λ p. p.1) (value_of r) in
              let size : length name ≡ len =
                length-slice buf (i + 2) (i + 2 + len) bigger ∙ omega arith in
              let (bound, prefix) = number_at 2 buf i (i + 2) refl big small in
              let least : min (length name) 0xFFFF ≡ len = omega (arith, size, bound) in
              rw (e1, e2)
                (
                  record {
                    forward = omega arith;
                    within = bigger;
                    same =
                        rw (least, prefix)
                          (slice_glue buf i (i + 2) (i + 2 + len) (omega arith) (omega arith));
                  },
                  omega (arith, size, bound),
                  fine,
                )
          | inr (_, bad) ↦ cc
        ]
      ]
    ]

pub parse_tx_ok :
    (buf : Bytes) (i : ℕ) {t : TxId} {j : ℕ}
    → All IsByte buf
    → parse_tx buf i ≡ ok (t, j)
    → Spans buf i j (canonical_tx_bytes t) × IsTx t
unfolding parse_tx canonical_tx_bytes
parse_tx_ok buf i {t} {j} small h = elim (if-cases (ltb (length buf) (i + 28)) h) [
  | inl (_, bad) ↦ cc
  | inr (wide, r) ↦
      let big : i + 28 ≤ length buf = ground arith in
      let e1 = ap (λ p. p.0) (value_of r) in
      let e2 : j ≡ i + 28 = ap (λ p. p.1) (value_of r) in
      let (bound1, code1) = number_at 8 buf i (i + 8) refl (omega arith) small in
      let (bound2, code2) = number_at 4 buf (i + 8) (i + 12) (omega arith) (omega arith) small in
      rw (e1, e2)
        (
          record {
            forward = omega arith;
            within = big;
            same =
                rw (code1, code2)
                  (ap (λ s. slice buf i (i + 8) ++ s)
                      (slice_glue buf (i + 8) (i + 12) (i + 28) (omega arith) (omega arith))
                    ∙ slice_glue buf i (i + 8) (i + 28) (omega arith) (omega arith));
          },
          record {
            physical = bound1;
            logical = bound2;
            node = length-slice buf (i + 12) (i + 28) big ∙ omega arith;
          },
        )
]

pub Spans-glue :
    {buf s t : Bytes} {i j k : ℕ} → Spans buf i j s → Spans buf j k t → Spans buf i k (s ++ t)
Spans-glue {buf} {i = i} {j = j} {k = k} a b = record {
  forward = omega (arith, a.forward, b.forward);
  within = b.within;
  same = rw (a.same, b.same) (slice_glue buf i j k a.forward b.forward);
}
