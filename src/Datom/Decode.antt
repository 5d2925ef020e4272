-- ===== src/Datom/Decode.antt =====
-- Reading a datom from its canonical bytes (mod.rs). The source moves an offset that it holds by
-- reference; here each parser returns the offset behind what it read. The conversions of slices to
-- arrays cannot fail, since the lengths are tested before them.
use ferratomic.Prelude.{
  ℕ, ◌+◌, true, false, not, [], ◌∷◌, ltb, leb, ◌==◌, ◌||◌, ◌&&◌, if◌then◌else◌, length, drop,
  get_or,
}
use ferratomic.Prelude.Results.{Result, ok, err, ◌>>=◌}
use ferratomic.Prelude.Bytes.{Bytes, slice, from_le_bytes}
use ferratomic.Clock.TxId.{TxId, with_node}
use ferratomic.Datom.Utf8.{is_utf8}
use ferratomic.Datom.Types.{
  EntityId, Attribute, Op, assert, retract, Value, keyword, string, long, double, bool, instant,
  uuid, bytes, ref, big_int, big_dec, Datom, is_nan,
}

-- The variants of `FerraError` that the decoder returns.
pub data DecodeError : Type 0 where
  truncated_chunk non_canonical_chunk trailing_bytes : DecodeError

unfoldable pub parse_entity : Bytes → ℕ → Result DecodeError (EntityId × ℕ)
parse_entity buf offset =
    if ltb (length buf) (offset + 32)
    then err truncated_chunk
    else ok (slice buf offset (offset + 32), offset + 32)

unfoldable pub parse_attribute : Bytes → ℕ → Result DecodeError (Attribute × ℕ)
parse_attribute buf offset =
    let len = from_le_bytes (slice buf offset (offset + 2)) in
    let name = slice buf (offset + 2) (offset + 2 + len) in
    if ltb (length buf) (offset + 2)
    then err truncated_chunk
    else if ltb (length buf) (offset + 2 + len)
    then err truncated_chunk
    else if is_utf8 name
    then ok (name, offset + 2 + len)
    else err non_canonical_chunk

unfoldable pub parse_tx : Bytes → ℕ → Result DecodeError (TxId × ℕ)
parse_tx buf offset =
    if ltb (length buf) (offset + 28)
    then err truncated_chunk
    else ok (
      with_node (from_le_bytes (slice buf offset (offset + 8)))
          (from_le_bytes (slice buf (offset + 8) (offset + 12)))
          (slice buf (offset + 12) (offset + 28)),
      offset + 28,
    )

unfoldable pub parse_op : Bytes → ℕ → Result DecodeError (Op × ℕ)
parse_op buf offset =
    let byte = get_or buf offset 0 in
    if leb (length buf) offset
    then err truncated_chunk
    else if byte == 0x00
    then ok (assert, offset + 1)
    else if byte == 0x01
    then ok (retract, offset + 1)
    else err non_canonical_chunk

-- A length of `k` bytes and as many bytes, with the number of bytes consumed, the tag included: what
-- the three arms of `parse_varlen_value` have in common.
unfoldable pub read_sized : ℕ → Bytes → Result DecodeError (Bytes × ℕ)
read_sized k rest =
    let len = from_le_bytes (slice rest 0 k) in
    if ltb (length rest) k
    then err truncated_chunk
    else if ltb (length rest) (k + len)
    then err truncated_chunk
    else ok (slice rest k (k + len), 1 + k + len)

abbrev pub text : (Bytes → Value) → Bytes × ℕ → Result DecodeError (Value × ℕ)
text value (s, n) = if is_utf8 s then ok (value s, n) else err non_canonical_chunk

abbrev pub blob : Bytes × ℕ → Result DecodeError (Value × ℕ)
blob (s, n) = ok (bytes s, n)

abbrev pub parse_varlen_value : ℕ → Bytes → Result DecodeError (Value × ℕ)
parse_varlen_value tag rest =
    if tag == 0x01
    then read_sized 2 rest >>= text keyword
    else if tag == 0x02
    then read_sized 4 rest >>= text string
    else if tag == 0x08
    then read_sized 4 rest >>= blob
    else err non_canonical_chunk

-- `read_i64`, `read_f64` and `read_i128`, on `k` bytes.
unfoldable pub read_number : ℕ → Bytes → Result DecodeError ℕ
read_number k rest =
    if ltb (length rest) k then err truncated_chunk else ok (from_le_bytes (slice rest 0 k))

unfoldable pub read_array : ℕ → Bytes → Result DecodeError Bytes
read_array k rest = if ltb (length rest) k then err truncated_chunk else ok (slice rest 0 k)

-- `.map(|a| (value(a), n))`
abbrev pub with_size {ℓ} : {A : Type ℓ} → (A → Value) → ℕ → A → Result DecodeError (Value × ℕ)
with_size value n a = ok (value a, n)

abbrev pub non_nan : ℕ → Result DecodeError (Value × ℕ)
non_nan f = if is_nan f then err non_canonical_chunk else ok (double f, 9)

abbrev pub parse_bool : Bytes → Result DecodeError (Value × ℕ)
parse_bool [] = err truncated_chunk
parse_bool (b ∷ rest) =
    if b == 0x00
    then ok (bool false, 2)
    else if b == 0x01
    then ok (bool true, 2)
    else err non_canonical_chunk

abbrev pub parse_fixed_value : ℕ → Bytes → Result DecodeError (Value × ℕ)
parse_fixed_value tag rest =
    if tag == 0x03
    then read_number 8 rest >>= with_size long 9
    else if tag == 0x04
    then read_number 8 rest >>= non_nan
    else if tag == 0x05
    then parse_bool rest
    else if tag == 0x06
    then read_number 8 rest >>= with_size instant 9
    else if tag == 0x07
    then read_array 16 rest >>= with_size uuid 17
    else if tag == 0x09
    then read_array 32 rest >>= with_size ref 33
    else if tag == 0x0A
    then read_number 16 rest >>= with_size big_int 17
    else if tag == 0x0B
    then read_number 16 rest >>= with_size big_dec 17
    else err non_canonical_chunk

unfoldable pub parse_canonical_value : Bytes → Result DecodeError (Value × ℕ)
parse_canonical_value [] = err truncated_chunk
parse_canonical_value (tag ∷ rest) =
    if (tag == 0x01) || ((tag == 0x02) || (tag == 0x08))
    then parse_varlen_value tag rest
    else if leb 0x03 tag && leb tag 0x0B
    then parse_fixed_value tag rest
    else err non_canonical_chunk

-- Bytes behind the operation are refused.
abbrev pub finish : ℕ → ℕ → Datom → Result DecodeError Datom
finish len offset d = if not (offset == len) then err trailing_bytes else ok d

unfoldable pub from_canonical_bytes : Bytes → Result DecodeError Datom
from_canonical_bytes buf = do
  (entity, o1) ← parse_entity buf 0
  (attribute, o2) ← parse_attribute buf o1
  (value, n) ← parse_canonical_value (drop o2 buf)
  (tx, o3) ← parse_tx buf (o2 + n)
  (op, o4) ← parse_op buf o3
  finish (length buf) o4
      (record { entity = entity; attribute = attribute; value = value; tx = tx; op = op })
