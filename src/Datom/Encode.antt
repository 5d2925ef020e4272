-- ===== src/Datom/Encode.antt =====
-- The canonical bytes of a datom (mod.rs).
use ferratomic.Prelude.{ℕ, min, Bool, [], ◌∷◌, ◌++◌, if◌then◌else◌, length}
use ferratomic.Prelude.Bytes.{Bytes, to_le_bytes}
use ferratomic.Clock.TxId.{TxId}
use ferratomic.Datom.Types.{
  Attribute, Op, assert, retract, Value, keyword, string, long, double, bool, instant, uuid, bytes,
  ref, big_int, big_dec, Datom, plus_zero,
}

abbrev pub attr_byte_len_u16 : ℕ → ℕ
attr_byte_len_u16 len = min len 0xFFFF

unfoldable pub canonical_attr_bytes : Attribute → Bytes
canonical_attr_bytes a = to_le_bytes 2 (attr_byte_len_u16 (length a)) ++ a

unfoldable pub canonical_tx_bytes : TxId → Bytes
canonical_tx_bytes t = to_le_bytes 8 t.physical ++ (to_le_bytes 4 t.logical ++ t.node)

abbrev pub push_tag_u16_str : ℕ → Bytes → Bytes
push_tag_u16_str tag content = tag ∷ (to_le_bytes 2 (min (length content) 0xFFFF) ++ content)

abbrev pub push_tag_u32_bytes : ℕ → Bytes → Bytes
push_tag_u32_bytes tag content = tag ∷ (to_le_bytes 4 (min (length content) 0xFFFF_FFFF) ++ content)

abbrev pub bool_byte : Bool → ℕ
bool_byte b = if b then 1 else 0

unfoldable pub canonical_value_bytes : Value → Bytes
canonical_value_bytes (keyword s) = push_tag_u16_str 0x01 s
canonical_value_bytes (string s) = push_tag_u32_bytes 0x02 s
canonical_value_bytes (long n) = 0x03 ∷ to_le_bytes 8 n
canonical_value_bytes (double f) = 0x04 ∷ to_le_bytes 8 (plus_zero f)
canonical_value_bytes (bool b) = 0x05 ∷ bool_byte b ∷ []
canonical_value_bytes (instant ms) = 0x06 ∷ to_le_bytes 8 ms
canonical_value_bytes (uuid u) = 0x07 ∷ u
canonical_value_bytes (bytes blob) = push_tag_u32_bytes 0x08 blob
canonical_value_bytes (ref eid) = 0x09 ∷ eid
canonical_value_bytes (big_int n) = 0x0A ∷ to_le_bytes 16 n
canonical_value_bytes (big_dec n) = 0x0B ∷ to_le_bytes 16 n

abbrev pub op_byte : Op → ℕ
op_byte assert = 0x00
op_byte retract = 0x01

unfoldable pub canonical_bytes : Datom → Bytes
canonical_bytes d =
    d.entity
    ++ (canonical_attr_bytes d.attribute
        ++ (canonical_value_bytes d.value ++ (canonical_tx_bytes d.tx ++ op_byte d.op ∷ [])))
