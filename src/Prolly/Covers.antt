-- ===== src/Prolly/Covers.antt =====
-- A chunk that is stored is read as the entries it was made of (build.rs, read.rs, INV-FERR-049).
use ferratomic.Prelude.{
  ℕ, zero, suc, ◌≡◌, refl, ap, ◌∙◌, inl, inr, true, some, List, [], ◌∷◌, ◌++◌, ◌==◌, arith,
  Bool-cases,
}
use ferratomic.Prelude.Bytes.{Bytes}
use ferratomic.Prelude.Results.{Result, ok}
use ferratomic.Prolly.Build.{
  FerraError, ChunkStore, Entry, serialize_leaf_chunk, serialize_internal_chunk,
}
use ferratomic.Prolly.Read.{keys_ascend, bytes_less, deserialize_leaf_chunk}
use ferratomic.Prolly.LeafRead.{deserialize_leaf_chunk-serialize_leaf_chunk}
use ferratomic.Prolly.ReadTree.{load_chunk, read_subtree_vec}
use ferratomic.Prolly.ChildRead.{decode_child_addrs-serialize_internal_chunk}
use ferratomic.Prolly.Stored.{Grows, Reads, ReadsAll, ReadsAll-IsHashed, read_each-ReadsAll}

-- Keys that ascend do so in each part.
pub keys_ascend-append :
    (xs ys : List Entry)
    → keys_ascend (xs ++ ys) ≡ true
    → (keys_ascend xs ≡ true) × (keys_ascend ys ≡ true)
unfolding keys_ascend
keys_ascend-append [] ys h = (refl, h)
keys_ascend-append (x ∷ []) [] h = (refl, refl)
keys_ascend-append (x ∷ []) (y ∷ ys) h = elim (Bool-cases (bytes_less x.0 y.0)) [
  | inl b ↦ (refl, rw b at h)
  | inr b ↦ let bad = rw b at h in cc
]
keys_ascend-append (x ∷ x' ∷ xs) ys h = elim (Bool-cases (bytes_less x.0 x'.0)) [
  | inl b ↦ let (front, back) = keys_ascend-append (x' ∷ xs) ys (rw b at h) in (rw b front, back)
  | inr b ↦ let bad = rw b at h in cc
]

module _ {κ} {X : Type κ} where
  -- Only bytes with the tag of a leaf are read as one.
  leaf_tag :
      (buf : Bytes) (es : List Entry)
      → deserialize_leaf_chunk {X = X} buf ≡ ok es
      → (content : Bytes) × (buf ≡ 0x01 ∷ content)
  unfolding deserialize_leaf_chunk
  leaf_tag [] es h = cc
  leaf_tag (tag ∷ content) es h = elim (Bool-cases (tag == 0x01)) [
    | inl b ↦ let same : tag ≡ 0x01 = ground arith in (content, ap (λ c. c ∷ content) same)
    | inr b ↦ let bad = rw b at h in cc
  ]

module _ {ℓ κ} {S : Type ℓ} {X : Type κ} (chunk_store : ChunkStore S X) where
  -- However its chunk is serialized, the group is read as these entries.
  abbrev pub Covers :
      (List Entry → Result (FerraError X) Bytes) → ℕ → S → List Entry → List Entry → Type (ℓ ⊔ κ)
  Covers serialize n s group es =
      (t : S) (addr content : Bytes)
      → Grows chunk_store s t
      → serialize group ≡ ok content
      → chunk_store.get_chunk t addr ≡ ok (some content)
      → Reads chunk_store n t addr es

  pub leaf-Covers :
      (s : S) (group : List Entry)
      → keys_ascend group ≡ true
      → Covers serialize_leaf_chunk 1 s group group
  unfolding read_subtree_vec load_chunk
  leaf-Covers s group asc t addr content g e at u zero result grows le = absurd (omega (arith, le))
  leaf-Covers s group asc t addr content g e at u (suc m) result grows le =
      let read = deserialize_leaf_chunk-serialize_leaf_chunk {X = X} group asc e in
      let (rest, tag) = leaf_tag content group read in
      let again : deserialize_leaf_chunk {X = X} (0x01 ∷ rest) ≡ ok group = rw tag at read in
      let there : chunk_store.get_chunk u addr ≡ ok (some (0x01 ∷ rest)) =
        grows addr content at ∙ ap (λ c. ok (some c)) tag in
      rw (there, again) refl

  pub internal-Covers :
      (n level : ℕ) (s : S) (group es : List Entry)
      → ReadsAll chunk_store n s group es
      → Covers (serialize_internal_chunk level) (suc n) s group es
  unfolding read_subtree_vec load_chunk
  internal-Covers n level s group es h t addr content g e at u zero result grows le =
      absurd (omega (arith, le))
  internal-Covers n level s group es h t addr content g e at u (suc m) result grows le =
      let (rest, tag, read) =
        decode_child_addrs-serialize_internal_chunk {X = X} level group
          (ReadsAll-IsHashed chunk_store n s group es h) e in
      let there : chunk_store.get_chunk u addr ≡ ok (some (0x02 ∷ rest)) =
        grows addr content at ∙ ap (λ c. ok (some c)) tag in
      rw (there, read)
        (read_each-ReadsAll chunk_store n s u m group es result (λ a c k. grows a c (g a c k))
          (omega (arith, le)) h)
