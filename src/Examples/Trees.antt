-- ===== src/Examples/Trees.antt =====
-- A prolly tree of a few entries.
use ferratomic.Prelude.{ℕ, ◌≡◌, refl, none, some, List, [], ◌∷◌, ◌++◌, length, map, take, replicate}
use ferratomic.Prelude.Bytes.{Bytes, slice, to_le_bytes, from_le_bytes}
use ferratomic.Prelude.Results.{ok, err}
use ferratomic.Prolly.Boundary.{
  bit_and, bit_xor, gear_from, is_boundary, is_empty, split_from, split_at_boundaries,
}
use ferratomic.Prolly.Build.{
  non_canonical_chunk, ChunkStore, Entry, entry_key, len_u32, leaf_entries, serialize_leaf_chunk,
  put_groups, build_internal_nodes, build_prolly_tree, only_addr,
}
use ferratomic.Prolly.Read.{bytes_less, keys_ascend, read_len, read_entries, deserialize_leaf_chunk}
use ferratomic.Prolly.Split.{concat, IsSized, split_at_boundaries-IsSized}

-- The chunks in the order in which they were put
abbrev memory : ChunkStore (List Entry) ℕ
memory = record {
  put_chunk = λ s addr content. ((addr, content) ∷ s, ok addr);
  get_chunk = λ s addr. ok none;
}

abbrev first_bytes : Bytes → Bytes
first_bytes content = take 32 (content ++ replicate 32 0)

abbrev plain_table : ℕ → ℕ
plain_table byte = byte

abbrev entries : List Entry
entries = (1 ∷ [], 10 ∷ []) ∷ (2 ∷ [], 20 ∷ []) ∷ (3 ∷ [], 30 ∷ []) ∷ []

abbrev many_entries : List Entry
many_entries = replicate 40 (1 ∷ [], 10 ∷ [])

split_at_boundaries-IsSized_example :
    (concat (split_at_boundaries plain_table 0 entry_key many_entries) ≡ many_entries)
    × IsSized (split_at_boundaries plain_table 0 entry_key many_entries)
split_at_boundaries-IsSized_example =
    split_at_boundaries-IsSized plain_table 0 entry_key many_entries

-- With a pattern of no bits, every entry from the 32nd on is a boundary.
cut_at_32 : map length (split_at_boundaries plain_table 0 entry_key many_entries) ≡ 32 ∷ 8 ∷ []
unfolding split_at_boundaries split_from is_empty is_boundary bit_and gear_from bit_xor
cut_at_32 = refl

-- The root of one leaf is the leaf's address.
root_of_entries :
    (build_prolly_tree memory first_bytes plain_table 8 3 entries []).1
    ≡ some (
        ok (
          0x01 ∷ 3 ∷ 0 ∷ 0 ∷ 0 ∷ 1 ∷ 0 ∷ 0 ∷ 0 ∷ 1 ∷ 1 ∷ 0 ∷ 0 ∷ 0 ∷ 10 ∷ 1 ∷ 0 ∷ 0 ∷ 0 ∷ 2 ∷ 1 ∷ 0
          ∷ 0 ∷ 0 ∷ 20 ∷ 1 ∷ 0 ∷ 0 ∷ 0 ∷ 3 ∷ 1 ∷ 0 ∷ []))
unfolding build_prolly_tree build_internal_nodes put_groups serialize_leaf_chunk leaf_entries
    len_u32 split_at_boundaries split_from is_empty is_boundary only_addr to_le_bytes
root_of_entries = refl

abbrev leaf : Bytes
leaf =
    0x01 ∷ 3 ∷ 0 ∷ 0 ∷ 0 ∷ 1 ∷ 0 ∷ 0 ∷ 0 ∷ 1 ∷ 1 ∷ 0 ∷ 0 ∷ 0 ∷ 10 ∷ 1 ∷ 0 ∷ 0 ∷ 0 ∷ 2 ∷ 1 ∷ 0 ∷ 0
    ∷ 0 ∷ 20 ∷ 1 ∷ 0 ∷ 0 ∷ 0 ∷ 3 ∷ 1 ∷ 0 ∷ 0 ∷ 0 ∷ 30 ∷ []

entries_serialized : serialize_leaf_chunk {X = ℕ} entries ≡ ok leaf
unfolding serialize_leaf_chunk leaf_entries len_u32 to_le_bytes
entries_serialized = refl

-- Two entries of one key are refused.
equal_keys_refused :
    deserialize_leaf_chunk {X = ℕ} (
      0x01 ∷ 2 ∷ 0 ∷ 0 ∷ 0 ∷ 1 ∷ 0 ∷ 0 ∷ 0 ∷ 7 ∷ 0 ∷ 0 ∷ 0 ∷ 0 ∷ 1 ∷ 0 ∷ 0 ∷ 0 ∷ 7 ∷ 0 ∷ 0 ∷ 0 ∷ 0
      ∷ [])
    ≡ err non_canonical_chunk
unfolding deserialize_leaf_chunk read_entries read_len slice from_le_bytes keys_ascend bytes_less
equal_keys_refused = refl
