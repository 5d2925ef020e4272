-- ===== src/Datom/Hash.antt =====
-- The content hash of a datom (mod.rs). The BLAKE3 hasher is outside the program.
use ferratomic.Prelude.{ℕ, min, [], ◌∷◌, ◌++◌, length, ◌≡◌}
use ferratomic.Prelude.Bytes.{Bytes, to_le_bytes}
use ferratomic.Datom.Types.{
  Value, keyword, string, long, double, bool, instant, uuid, bytes, ref, big_int, big_dec, Datom,
  plus_zero,
}
use ferratomic.Datom.Encode.{attr_byte_len_u16, bool_byte, op_byte}

-- `blake3::Hasher`, with the documented law that updates in turn hash their concatenation.
pub record Hasher {ℓ} (H : Type ℓ) : Type ℓ where
  pub new_hasher : H
  pub update : H → Bytes → H
  pub finalize : H → Bytes
  pub update_append : (h : H) (a b : Bytes) → update (update h a) b ≡ update h (a ++ b)

module _ {ℓ} {H : Type ℓ} (blake : Hasher H) where
  -- `blake3::hash`
  abbrev pub hash_all : Bytes → Bytes
  hash_all content = blake.finalize (blake.update blake.new_hasher content)

  abbrev pub hash_tag_u16_str : H → ℕ → Bytes → H
  hash_tag_u16_str h tag content =
      blake.update
        (blake.update (blake.update h (tag ∷ [])) (to_le_bytes 2 (min (length content) 0xFFFF)))
        content

  abbrev pub hash_tag_u32_bytes : H → ℕ → Bytes → H
  hash_tag_u32_bytes h tag content =
      blake.update
        (blake.update (blake.update h (tag ∷ []))
          (to_le_bytes 4 (min (length content) 0xFFFF_FFFF)))
        content

  -- A tag and the bytes behind it.
  abbrev pub tagged : H → ℕ → Bytes → H
  tagged h tag content = blake.update (blake.update h (tag ∷ [])) content

  unfoldable pub canonical_value_hash : Value → H → H
  canonical_value_hash (keyword s) h = hash_tag_u16_str h 0x01 s
  canonical_value_hash (string s) h = hash_tag_u32_bytes h 0x02 s
  canonical_value_hash (long n) h = tagged h 0x03 (to_le_bytes 8 n)
  canonical_value_hash (double f) h = tagged h 0x04 (to_le_bytes 8 (plus_zero f))
  canonical_value_hash (bool b) h = tagged h 0x05 (bool_byte b ∷ [])
  canonical_value_hash (instant ms) h = tagged h 0x06 (to_le_bytes 8 ms)
  canonical_value_hash (uuid u) h = tagged h 0x07 u
  canonical_value_hash (bytes blob) h = hash_tag_u32_bytes h 0x08 blob
  canonical_value_hash (ref eid) h = tagged h 0x09 eid
  canonical_value_hash (big_int n) h = tagged h 0x0A (to_le_bytes 16 n)
  canonical_value_hash (big_dec n) h = tagged h 0x0B (to_le_bytes 16 n)

  -- Entity, attribute and value: what both hashes begin with.
  abbrev pub hash_fact : Datom → H → H
  hash_fact d h = canonical_value_hash d.value (
      blake.update
        (blake.update (blake.update h d.entity)
          (to_le_bytes 2 (attr_byte_len_u16 (length d.attribute))))
        d.attribute)

  unfoldable pub content_hash : Datom → Bytes
  content_hash d = blake.finalize (
      blake.update
        (blake.update
          (blake.update (blake.update (hash_fact d blake.new_hasher) (to_le_bytes 8 d.tx.physical))
            (to_le_bytes 4 d.tx.logical))
          d.tx.node)
        (op_byte d.op ∷ []))

  unfoldable pub hash_signing_fields : Datom → H → H
  hash_signing_fields d h = blake.update (hash_fact d h) (op_byte d.op ∷ [])
