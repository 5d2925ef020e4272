-- ===== src/Datom/HashLaws.antt =====
-- The streamed hashes are those of the canonical bytes (INV-FERR-012, INV-FERR-086).
use ferratomic.Prelude.{[], ◌∷◌, ◌++◌, length, ◌≡◌, ap, ◌∙◌}
use ferratomic.Prelude.Bytes.{Bytes, to_le_bytes}
use ferratomic.Datom.Types.{
  Value, keyword, string, long, double, bool, instant, uuid, bytes, ref, big_int, big_dec, Datom,
}
use ferratomic.Datom.Encode.{
  attr_byte_len_u16, op_byte, canonical_attr_bytes, canonical_value_bytes, canonical_tx_bytes,
  canonical_bytes,
}
use ferratomic.Datom.Hash.{
  Hasher, hash_all, canonical_value_hash, hash_fact, content_hash, hash_signing_fields,
}

module _ {ℓ} {H : Type ℓ} (blake : Hasher H) where
  update_three :
      (h : H) (a b c : Bytes)
      → blake.update (blake.update (blake.update h a) b) c ≡ blake.update h (a ++ (b ++ c))
  update_three h a b c =
      blake.update_append (blake.update h a) b c ∙ blake.update_append h a (b ++ c)

  canonical_value_hash-bytes :
      (v : Value) (h : H)
      → canonical_value_hash blake v h ≡ blake.update h (canonical_value_bytes v)
  unfolding canonical_value_hash canonical_value_bytes
  canonical_value_hash-bytes (keyword s) h = update_three h (0x01 ∷ []) _ s
  canonical_value_hash-bytes (string s) h = update_three h (0x02 ∷ []) _ s
  canonical_value_hash-bytes (long n) h = blake.update_append h (0x03 ∷ []) _
  canonical_value_hash-bytes (double f) h = blake.update_append h (0x04 ∷ []) _
  canonical_value_hash-bytes (bool b) h = blake.update_append h (0x05 ∷ []) _
  canonical_value_hash-bytes (instant n) h = blake.update_append h (0x06 ∷ []) _
  canonical_value_hash-bytes (uuid u) h = blake.update_append h (0x07 ∷ []) u
  canonical_value_hash-bytes (bytes s) h = update_three h (0x08 ∷ []) _ s
  canonical_value_hash-bytes (ref e) h = blake.update_append h (0x09 ∷ []) e
  canonical_value_hash-bytes (big_int n) h = blake.update_append h (0x0A ∷ []) _
  canonical_value_hash-bytes (big_dec n) h = blake.update_append h (0x0B ∷ []) _

  hash_fact-bytes :
      (d : Datom) (h : H) (s : Bytes)
      → blake.update (hash_fact blake d h) s
        ≡ blake.update h
            (d.entity ++ (canonical_attr_bytes d.attribute ++ (canonical_value_bytes d.value ++ s)))
  unfolding canonical_attr_bytes
  hash_fact-bytes d h s =
      let a : Bytes = to_le_bytes 2 (attr_byte_len_u16 (length d.attribute)) in
      let v : Bytes = canonical_value_bytes d.value in
      ap (λ g. blake.update g s) (canonical_value_hash-bytes d.value _)
      ∙ blake.update_append _ v s
      ∙ ap (λ g. blake.update g (v ++ s))
          (blake.update_append (blake.update h d.entity) a d.attribute)
      ∙ blake.update_append (blake.update h d.entity) (a ++ d.attribute) (v ++ s)
      ∙ blake.update_append h d.entity ((a ++ d.attribute) ++ (v ++ s))

  -- The content hash of a datom, which is streamed field by field, is the hash of its canonical
  -- bytes; and the fields that are signed are streamed as the canonical bytes without the
  -- transaction.
  pub content_hash-canonical_bytes :
      (d : Datom)
      → (content_hash blake d ≡ hash_all blake (canonical_bytes d))
        × ((h : H)
            → hash_signing_fields blake d h
              ≡ blake.update h (
                  d.entity
                  ++ (canonical_attr_bytes d.attribute
                      ++ (canonical_value_bytes d.value ++ op_byte d.op ∷ []))))
  unfolding content_hash hash_signing_fields canonical_bytes canonical_tx_bytes
  content_hash-canonical_bytes d =
      let p : Bytes = to_le_bytes 8 d.tx.physical in
      let l : Bytes = to_le_bytes 4 d.tx.logical in
      let o : Bytes = op_byte d.op ∷ [] in
      let g : H = hash_fact blake d blake.new_hasher in
      (
        ap blake.finalize (
            ap (λ x. blake.update x o) (update_three g p l d.tx.node)
            ∙ blake.update_append g (p ++ (l ++ d.tx.node)) o
            ∙ hash_fact-bytes d blake.new_hasher ((p ++ (l ++ d.tx.node)) ++ o)),
        λ h. hash_fact-bytes d h o,
      )
