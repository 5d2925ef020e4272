-- ===== src/Datom/Values.antt =====
-- A value is read back from its canonical bytes.
use ferratomic.Prelude.{
  ℕ, suc, ◌+◌, ◌^◌, min, ◌<◌, ◌≡◌, refl, sym, ap, ◌∙◌, true, false, ◌++◌, arith, length,
  length-append, append_assoc,
}
use ferratomic.Prelude.Results.{Result, ok, ◌>>=◌}
use ferratomic.Prelude.Bytes.{
  Bytes, slice, to_le_bytes, from_le_bytes, length-to_le_bytes, from_le_bytes-to_le_bytes,
  slice_second, slice_first,
}
use ferratomic.Datom.Types.{
  Value, keyword, string, long, double, bool, instant, uuid, bytes, ref, big_int, big_dec, is_nan,
  plus_zero, IsValue,
}
use ferratomic.Datom.Encode.{canonical_value_bytes}
use ferratomic.Datom.Decode.{
  DecodeError, read_sized, read_number, read_array, parse_canonical_value,
}

read_sized-append :
    (k : ℕ) (s rest : Bytes)
    → length s < 256 ^ k
    → read_sized k (to_le_bytes k (length s) ++ (s ++ rest)) ≡ ok (s, 1 + k + length s)
unfolding read_sized
read_sized-append k s rest h =
    let pre : Bytes = to_le_bytes k (length s) in
    let len : from_le_bytes (slice (pre ++ (s ++ rest)) 0 k) ≡ length s =
      ap from_le_bytes (slice_first pre (s ++ rest) k (sym (length-to_le_bytes k (length s))))
      ∙ from_le_bytes-to_le_bytes k (length s) h in
    let content : slice (pre ++ (s ++ rest)) k (k + length s) ≡ s =
      slice_second pre s rest k (k + length s) (sym (length-to_le_bytes k (length s))) refl in
    rw len (
      ground (
        arith,
        content,
        length-append pre (s ++ rest),
        length-append s rest,
        length-to_le_bytes k (length s),
      ))

pub read_number-append :
    (k n : ℕ) (rest : Bytes) → n < 256 ^ k → read_number k (to_le_bytes k n ++ rest) ≡ ok n
unfolding read_number
read_number-append k n rest h =
    let pre : Bytes = to_le_bytes k n in
    let read : from_le_bytes (slice (pre ++ rest) 0 k) ≡ n =
      ap from_le_bytes (slice_first pre rest k (sym (length-to_le_bytes k n)))
      ∙ from_le_bytes-to_le_bytes k n h in
    rw read (ground (arith, length-append pre rest, length-to_le_bytes k n))

read_array-append : (s rest : Bytes) → read_array (length s) (s ++ rest) ≡ ok s
unfolding read_array
read_array-append s rest =
    rw (slice_first s rest (length s) refl) (ground (arith, length-append s rest))

-- The value that is read back: -0.0 has become 0.0.
abbrev pub normal : Value → Value
normal (double f) = double (plus_zero f)
normal v = v

plus_zero_bits : (f : ℕ) → f < 256 ^ 8 → plus_zero f < 256 ^ 8
plus_zero_bits f h = ground arith

plus_zero-is_nan : (f : ℕ) → is_nan f ≡ false → is_nan (plus_zero f) ≡ false
plus_zero-is_nan f h = ground arith

prefixed :
    (k : ℕ) (s rest : Bytes) (bound : ℕ)
    → 256 ^ k ≡ suc bound
    → length s < 256 ^ k
    → read_sized k ((to_le_bytes k (min (length s) bound) ++ s) ++ rest) ≡ ok (s, 1 + k + length s)
prefixed k s rest bound e h =
    let small : min (length s) bound ≡ length s = omega arith in
    rw (small, append_assoc) (read_sized-append k s rest h)

prefixed_length : (k : ℕ) (s : Bytes) (m : ℕ) → length (to_le_bytes k m ++ s) ≡ k + length s
prefixed_length k s m = omega (arith, length-append (to_le_bytes k m) s, length-to_le_bytes k m)

consumed :
    {v : Value} {m n : ℕ} → m ≡ n → ◌≡◌ {A = Result DecodeError (Value × ℕ)} (ok (v, m)) (ok (v, n))
consumed {v} h = ap (λ n. ok (v, n)) h

array : {k : ℕ} (s rest : Bytes) → length s ≡ k → read_array k (s ++ rest) ≡ ok s
array s rest h = rw (sym h) (read_array-append s rest)

pub parse_canonical_value-append :
    (v : Value) (rest : Bytes)
    → IsValue v
    → parse_canonical_value (canonical_value_bytes v ++ rest)
      ≡ ok (normal v, length (canonical_value_bytes v))
unfolding parse_canonical_value canonical_value_bytes
parse_canonical_value-append (keyword s) rest h =
    rw (prefixed 2 s rest 0xFFFF refl h.0, h.1, prefixed_length) (consumed (omega arith))
parse_canonical_value-append (string s) rest h =
    rw (prefixed 4 s rest 0xFFFF_FFFF refl h.0, h.1, prefixed_length) (consumed (omega arith))
parse_canonical_value-append (long n) rest h =
    rw (read_number-append 8 n rest h, length-to_le_bytes) (consumed (omega arith))
parse_canonical_value-append (double f) rest h =
    rw
      (
        read_number-append 8 (plus_zero f) rest (plus_zero_bits f h.0),
        plus_zero-is_nan f h.1,
        length-to_le_bytes,
      )
      (consumed (omega arith))
parse_canonical_value-append (bool true) rest h = refl
parse_canonical_value-append (bool false) rest h = refl
parse_canonical_value-append (instant n) rest h =
    rw (read_number-append 8 n rest h, length-to_le_bytes) (consumed (omega arith))
parse_canonical_value-append (uuid u) rest h =
    ap (λ r. r >>= (λ a. ok (uuid a, 17))) (array u rest h) ∙ consumed (omega arith)
parse_canonical_value-append (bytes s) rest h =
    rw (prefixed 4 s rest 0xFFFF_FFFF refl h, prefixed_length) (consumed (omega arith))
parse_canonical_value-append (ref e) rest h =
    ap (λ r. r >>= (λ a. ok (ref a, 33))) (array e rest h) ∙ consumed (omega arith)
parse_canonical_value-append (big_int n) rest h =
    rw (read_number-append 16 n rest h, length-to_le_bytes) (consumed (omega arith))
parse_canonical_value-append (big_dec n) rest h =
    rw (read_number-append 16 n rest h, length-to_le_bytes) (consumed (omega arith))
