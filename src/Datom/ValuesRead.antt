-- ===== src/Datom/ValuesRead.antt =====
-- The bytes from which a value is read are its canonical bytes.
use ferratomic.Prelude.{
  ℕ, suc, ◌+◌, ◌^◌, min, ◌≤◌, ◌<◌, ◌≡◌, refl, ap, ◌∙◌, inl, inr, true, [], ◌∷◌, ◌++◌, ◌&&◌, ◌||◌,
  leb, ltb, arith, length, take, All, ◌==◌,
}
use ferratomic.Prelude.Results.{ok, ◌>>=◌}
use ferratomic.Prelude.Bytes.{Bytes, slice, to_le_bytes, from_le_bytes}
use ferratomic.Datom.Utf8.{is_utf8}
use ferratomic.Datom.Types.{Value, keyword, string, bytes, IsValue}
use ferratomic.Datom.Encode.{canonical_value_bytes}
use ferratomic.Datom.Decode.{read_sized, parse_canonical_value, parse_varlen_value, text, blob}
use ferratomic.Datom.Inverse.{
  IsByte, to_le_bytes-from_le_bytes, length-slice, slice-All, slice_glue, slice_front, if-cases,
  bind_ok, value_of,
}
use ferratomic.Datom.FixedRead.{Reads, same_result, fixed, at, parse_fixed_value_ok}

read_sized_ok :
    (k : ℕ) (s : Bytes) {a : Bytes} {n : ℕ}
    → read_sized k s ≡ ok (a, n)
    → All IsByte s
    → (k + length a ≤ length s)
      × (n ≡ 1 + k + length a)
      × (length a < 256 ^ k)
      × (to_le_bytes k (length a) ++ a ≡ take (k + length a) s)
unfolding read_sized
read_sized_ok k s {a = a} {n = n} h b =
    let len : ℕ = from_le_bytes (slice s 0 k) in
    elim (if-cases (ltb (length s) k) h) [
      | inl (_, e) ↦ cc
      | inr (wide, h2) ↦ elim (if-cases (ltb (length s) (k + len)) h2) [
        | inl (_, e) ↦ cc
        | inr (longer, e) ↦
            let big : k ≤ length s = ground arith in
            let bigger : k + len ≤ length s = ground arith in
            let found : a ≡ slice s k (k + len) = ap (λ r. r.0) (value_of e) in
            let total : n ≡ 1 + k + len = ap (λ r. r.1) (value_of e) in
            let size : length a ≡ len =
              ap {B = ℕ} length found ∙ length-slice s k (k + len) bigger ∙ omega arith in
            let (bound, prefix) =
              to_le_bytes-from_le_bytes (slice s 0 k) (length-slice s 0 k big ∙ omega arith)
                (slice-All s 0 k b) in
            (
              omega (arith, size, bigger),
              omega (arith, size, total),
              rw size bound,
              rw (size, prefix, found)
                  (slice_glue s 0 k (k + len) (omega arith) (omega arith)
                    ∙ slice_front s (k + len)),
            )
      ]
    ]

-- A tag, a length and as many bytes.
sized_Reads :
    (k tag bound : ℕ) (value : Bytes → Value) (rest : Bytes) {a : Bytes} {n : ℕ}
    → 256 ^ k ≡ suc bound
    → ((s : Bytes)
        → canonical_value_bytes (value s) ≡ tag ∷ (to_le_bytes k (min (length s) bound) ++ s))
    → (length a < 256 ^ k → IsValue (value a))
    → All IsByte rest
    → read_sized k rest ≡ ok (a, n)
    → Reads (tag ∷ rest) (value a) n
sized_Reads k tag bound value rest {a = a} {n = n} room code valid small h =
    let (big, size, fits, same) = read_sized_ok k rest h small in
    let least : min (length a) bound ≡ length a = omega (arith, room, fits) in
    let total : n ≡ suc (k + length a) = omega (arith, size) in
    rw total (
      fixed (k + length a) tag rest (to_le_bytes k (length a) ++ a) (value a) big same
        (code a ∙ ap (λ m. tag ∷ (to_le_bytes k m ++ a)) least) (valid fits))

module _ (rest : Bytes) (small : All IsByte rest) {v : Value} {n : ℕ} where
  text_Reads :
      (k tag bound : ℕ) (value : Bytes → Value)
      → 256 ^ k ≡ suc bound
      → ((s : Bytes)
          → canonical_value_bytes (value s) ≡ tag ∷ (to_le_bytes k (min (length s) bound) ++ s))
      → ((s : Bytes) → length s < 256 ^ k → is_utf8 s ≡ true → IsValue (value s))
      → (read_sized k rest >>= text value) ≡ ok (v, n)
      → Reads (tag ∷ rest) v n
  text_Reads k tag bound value room code valid h =
      let ((a, m), e, h2) = bind_ok (read_sized k rest) (text value) h in
      elim (if-cases (is_utf8 a) h2) [
        | inl (fine, r) ↦
            same_result r
              (sized_Reads k tag bound value rest room code (λ b. valid a b fine) small e)
        | inr (_, bad) ↦ cc
      ]

  blob_Reads : (read_sized 4 rest >>= blob) ≡ ok (v, n) → Reads (8 ∷ rest) v n
  unfolding canonical_value_bytes
  blob_Reads h =
      let ((a, m), e, r) = bind_ok (read_sized 4 rest) blob h in
      same_result r (sized_Reads 4 8 0xFFFF_FFFF bytes rest refl (λ s. refl) (λ b. b) small e)

  parse_varlen_value_ok :
      (tag : ℕ) → parse_varlen_value tag rest ≡ ok (v, n) → Reads (tag ∷ rest) v n
  unfolding canonical_value_bytes
  parse_varlen_value_ok tag h = elim (if-cases (tag == 0x01) h) [
    | inl (e, h) ↦
        at rest small e (text_Reads 2 1 0xFFFF keyword refl (λ s. refl) (λ s b u. (b, u)) h)
    | inr (_, h) ↦ elim (if-cases (tag == 0x02) h) [
      | inl (e, h) ↦
          at rest small e (text_Reads 4 2 0xFFFF_FFFF string refl (λ s. refl) (λ s b u. (b, u)) h)
      | inr (_, h) ↦ elim (if-cases (tag == 0x08) h) [
        | inl (e, h) ↦ at rest small e (blob_Reads h)
        | inr (_, bad) ↦ cc
      ]
    ]
  ]

-- What a successful parse has read.
pub parse_canonical_value_ok :
    (s : Bytes) {v : Value} {n : ℕ}
    → All IsByte s
    → parse_canonical_value s ≡ ok (v, n)
    → Reads s v n
unfolding parse_canonical_value
parse_canonical_value_ok [] small h = cc
parse_canonical_value_ok (tag ∷ rest) small h =
    elim (if-cases ((tag == 0x01) || ((tag == 0x02) || (tag == 0x08))) h) [
      | inl (_, h) ↦ parse_varlen_value_ok rest small.1 tag h
      | inr (_, h) ↦ elim (if-cases (leb 0x03 tag && leb tag 0x0B) h) [
        | inl (_, h) ↦ parse_fixed_value_ok rest small.1 tag h
        | inr (_, bad) ↦ cc
      ]
    ]
