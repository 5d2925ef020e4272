-- ===== src/Prolly/ReadTree.antt =====
-- Reading a tree (ferratomic-core/src/prolly: read.rs, and decode_child_addrs of build.rs).
use ferratomic.Prelude.{
  ℕ, zero, suc, ◌+◌, Option, none, some, List, [], ◌∷◌, ◌++◌, ◌==◌, if◌then◌else◌,
}
use ferratomic.Prelude.Bytes.{Bytes, from_le_bytes}
use ferratomic.Prelude.Results.{Result, ok, err, ◌>>=◌}
use ferratomic.Prolly.Build.{
  FerraError, storage, missing_chunk, empty_chunk, unknown_codec_tag, ChunkStore, Entry,
}
use ferratomic.Prolly.Read.{read_len, deserialize_leaf_chunk}

-- `none` where the fuel has run out
abbrev pub ReadOutcome {κ} : Type κ → Type κ
ReadOutcome X = Option (Result (FerraError X) (List Entry))

module _ {κ} {X : Type κ} where
  -- The loop over the children: the separators are skipped
  unfoldable pub child_addrs : Bytes → ℕ → ℕ → Result (FerraError X) (List Bytes)
  child_addrs buf zero pos = ok []
  child_addrs buf (suc count) pos = do
    sep_len ← read_len buf pos 4
    let after = pos + 4 + from_le_bytes sep_len
    hash ← read_len buf after 32
    addrs ← child_addrs buf count (after + 32)
    ok (hash ∷ addrs)

  unfoldable pub decode_child_addrs : Bytes → Result (FerraError X) (List Bytes)
  decode_child_addrs [] = err empty_chunk
  decode_child_addrs (tag ∷ content) =
      if tag == 0x01
      then ok []
      else if tag == 0x02
      then (do
        count ← read_len (tag ∷ content) 2 4
        child_addrs (tag ∷ content) (from_le_bytes count) 6)
      else err (unknown_codec_tag tag)

  abbrev pub found : Result X (Option Bytes) → Result (FerraError X) Bytes
  found (err x) = err (storage x)
  found (ok none) = err missing_chunk
  found (ok (some bytes)) = ok bytes

  abbrev pub extend : List Entry → Result (FerraError X) (List Entry) → ReadOutcome X
  extend result (err x) = some (err x)
  extend result (ok entries) = some (ok (result ++ entries))

  abbrev pub then_read : (List Entry → ReadOutcome X) → ReadOutcome X → ReadOutcome X
  then_read go_on none = none
  then_read go_on (some (err x)) = some (err x)
  then_read go_on (some (ok result)) = go_on result

  -- The loop over the children
  unfoldable pub read_each :
      (Bytes → List Entry → ReadOutcome X) → List Bytes → List Entry → ReadOutcome X
  read_each read [] result = some (ok result)
  read_each read (addr ∷ addrs) result = then_read (read_each read addrs) (read addr result)

  abbrev pub read_children :
      (Bytes → List Entry → ReadOutcome X)
      → Result (FerraError X) (List Bytes)
      → List Entry
      → ReadOutcome X
  read_children read (err x) result = some (err x)
  read_children read (ok addrs) result = read_each read addrs result

  -- The match on the tag of a chunk
  abbrev pub read_chunk :
      (Bytes → List Entry → ReadOutcome X)
      → Result (FerraError X) Bytes
      → List Entry
      → ReadOutcome X
  read_chunk read (err x) result = some (err x)
  read_chunk read (ok []) result = some (err empty_chunk)
  read_chunk read (ok (tag ∷ content)) result =
      if tag == 0x01
      then extend result (deserialize_leaf_chunk (tag ∷ content))
      else if tag == 0x02
      then read_children read (decode_child_addrs (tag ∷ content)) result
      else some (err (unknown_codec_tag tag))

module _ {ℓ κ} {S : Type ℓ} {X : Type κ} (chunk_store : ChunkStore S X) (s : S) where
  unfoldable pub load_chunk : Bytes → Result (FerraError X) Bytes
  load_chunk addr = found (chunk_store.get_chunk s addr)

  -- On fuel, one unit for each level; the entries are added behind `result`.
  unfoldable pub read_subtree_vec : ℕ → Bytes → List Entry → ReadOutcome X
  read_subtree_vec zero addr result = none
  read_subtree_vec (suc fuel) addr result =
      read_chunk (read_subtree_vec fuel) (load_chunk addr) result

  unfoldable pub read_prolly_tree_vec : ℕ → Bytes → ReadOutcome X
  read_prolly_tree_vec fuel root = read_subtree_vec fuel root []
