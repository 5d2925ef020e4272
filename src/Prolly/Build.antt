-- ===== src/Prolly/Build.antt =====
-- Building the tree (ferratomic-core/src/prolly/build.rs, chunk.rs). The store of chunks, with a state
-- `S` and errors of type `X`, and BLAKE3 are parameters.
use ferratomic.Prelude.{
  ℕ, zero, suc, ◌+◌, ◌^◌, min, Option, none, some, List, [], ◌∷◌, ◌++◌, ltb, ◌==◌, if◌then◌else◌,
  length,
}
use ferratomic.Prelude.Bytes.{Bytes, to_le_bytes}
use ferratomic.Prelude.Results.{Result, ok, err, ◌>>=◌}
use ferratomic.Prolly.Boundary.{is_empty, split_at_boundaries}

-- The errors of building and reading: of the store, a length that `u32` does not hold, and what bytes
-- can be that are no chunk.
pub data FerraError {ℓ} (X : Type ℓ) : Type ℓ where
  storage : X → FerraError X
  length_exceeds_u32 : FerraError X
  missing_chunk : FerraError X
  empty_chunk : FerraError X
  unknown_codec_tag : ℕ → FerraError X
  truncated_chunk : FerraError X
  trailing_bytes : FerraError X
  non_canonical_chunk : FerraError X

pub record ChunkStore {ℓ κ} (S : Type ℓ) (X : Type κ) : Type (ℓ ⊔ κ) where
  pub put_chunk : S → Bytes → Bytes → S × Result X Bytes
  pub get_chunk : S → Bytes → Result X (Option Bytes)

abbrev pub Entry : Type 0
Entry = Bytes × Bytes

abbrev pub entry_key : Entry → Bytes
entry_key entry = entry.0

module _ {κ} {X : Type κ} where
  unfoldable pub len_u32 : ℕ → Result (FerraError X) ℕ
  len_u32 len = if ltb len (2 ^ 32) then ok len else err length_exceeds_u32

  unfoldable pub leaf_entries : Bytes → List Entry → Result (FerraError X) Bytes
  leaf_entries buf [] = ok buf
  leaf_entries buf ((key, value) ∷ entries) = do
    key_len ← len_u32 (length key)
    value_len ← len_u32 (length value)
    leaf_entries (buf ++ to_le_bytes 4 key_len ++ key ++ to_le_bytes 4 value_len ++ value) entries

  unfoldable pub serialize_leaf_chunk : List Entry → Result (FerraError X) Bytes
  serialize_leaf_chunk entries = do
    count ← len_u32 (length entries)
    leaf_entries (0x01 ∷ to_le_bytes 4 count) entries

  unfoldable pub children_from : Bytes → List Entry → Result (FerraError X) Bytes
  children_from buf [] = ok buf
  children_from buf ((separator, hash) ∷ children) = do
    sep_len ← len_u32 (length separator)
    children_from (buf ++ to_le_bytes 4 sep_len ++ separator ++ hash) children

  unfoldable pub serialize_internal_chunk : ℕ → List Entry → Result (FerraError X) Bytes
  serialize_internal_chunk level children = do
    count ← len_u32 (length children)
    children_from (0x02 ∷ level ∷ to_le_bytes 4 count) children

-- `group[0].0`, where the group is not empty
unfoldable pub separator : List Entry → Bytes
separator [] = []
separator (entry ∷ group) = entry_key entry

-- `child_addrs[0].1`
unfoldable pub only_addr : List Entry → Bytes
only_addr [] = []
only_addr (entry ∷ children) = entry.1

module _ {ℓ κ} {S : Type ℓ} {X : Type κ} (chunk_store : ChunkStore S X)
    (blake : Bytes → Bytes) where
  abbrev pub put_error : Result X Bytes → Result (FerraError X) Bytes → Result (FerraError X) Bytes
  put_error (ok stored) addr = addr
  put_error (err x) addr = err (storage x)

  -- `Chunk::from_bytes` and `put_chunk` of one serialized group: its address
  abbrev pub put_group : S → Result (FerraError X) Bytes → S × Result (FerraError X) Bytes
  put_group s (err x) = (s, err x)
  put_group s (ok serialized) =
      let addr = blake serialized in
      let put = chunk_store.put_chunk s addr serialized in (put.0, put_error put.1 (ok addr))

  abbrev pub prepend :
      Bytes
      → Bytes
      → S × Result (FerraError X) (List Entry)
      → S × Result (FerraError X) (List Entry)
  prepend sep addr (s, ok rest) = (s, ok ((sep, addr) ∷ rest))
  prepend sep addr (s, err x) = (s, err x)

  -- The loop over the groups: `go_on` is the rest of it.
  abbrev pub then_put :
      List Entry
      → (S → S × Result (FerraError X) (List Entry))
      → S × Result (FerraError X) Bytes
      → S × Result (FerraError X) (List Entry)
  then_put group go_on (s, err x) = (s, err x)
  then_put group go_on (s, ok addr) = prepend (separator group) addr (go_on s)

  unfoldable pub put_groups :
      (List Entry → Result (FerraError X) Bytes)
      → List (List Entry)
      → S
      → S × Result (FerraError X) (List Entry)
  put_groups serialize [] s = (s, ok [])
  put_groups serialize (group ∷ groups) s =
      then_put group (put_groups serialize groups) (put_group s (serialize group))

  abbrev pub then_build :
      (List Entry → S → S × Option (Result (FerraError X) Bytes))
      → S × Result (FerraError X) (List Entry)
      → S × Option (Result (FerraError X) Bytes)
  then_build go_on (s, err x) = (s, some (err x))
  then_build go_on (s, ok level_addrs) = go_on level_addrs s

  module _ (table : ℕ → ℕ) (pattern_width : ℕ) where
    -- On fuel, one unit for each level: `none` is a recursion that has not ended.
    unfoldable pub build_internal_nodes :
        ℕ → ℕ → List Entry → S → S × Option (Result (FerraError X) Bytes)
    build_internal_nodes zero level child_addrs s = (s, none)
    build_internal_nodes (suc fuel) level child_addrs s =
        if length child_addrs == 1
        then (s, some (ok (only_addr child_addrs)))
        else then_build (build_internal_nodes fuel (min 255 (level + 1))) (
            put_groups (serialize_internal_chunk level)
              (split_at_boundaries table pattern_width entry_key child_addrs) s)

    -- The entries of the map come in the order of their keys.
    unfoldable pub build_prolly_tree : ℕ → List Entry → S → S × Option (Result (FerraError X) Bytes)
    build_prolly_tree fuel kvs s =
        if is_empty kvs
        then (let put = put_group s (serialize_leaf_chunk []) in (put.0, some put.1))
        else then_build (build_internal_nodes fuel 1) (
            put_groups serialize_leaf_chunk (split_at_boundaries table pattern_width entry_key kvs)
              s)
