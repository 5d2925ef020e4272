-- ===== src/Prolly/Read.antt =====
-- Reading a leaf chunk back (ferratomic-core/src/prolly/build.rs).
use ferratomic.Prelude.{
  ℕ, zero, suc, ◌+◌, Bool, true, false, List, [], ◌∷◌, ltb, ◌==◌, if◌then◌else◌, length,
}
use ferratomic.Prelude.Bytes.{Bytes, slice, from_le_bytes}
use ferratomic.Prelude.Results.{Result, ok, err, ◌>>=◌}
use ferratomic.Prolly.Build.{
  FerraError, empty_chunk, unknown_codec_tag, truncated_chunk, trailing_bytes, non_canonical_chunk,
  Entry,
}

-- `a < b` of byte vectors
unfoldable pub bytes_less : Bytes → Bytes → Bool
bytes_less a [] = false
bytes_less [] (y ∷ b) = true
bytes_less (x ∷ a) (y ∷ b) =
    let rest = bytes_less a b in if ltb x y then true else if ltb y x then false else rest

-- Every key is less than the next: the windows of two
unfoldable pub keys_ascend : List Entry → Bool
keys_ascend [] = true
keys_ascend (e ∷ []) = true
keys_ascend (e ∷ f ∷ entries) =
    let rest = keys_ascend (f ∷ entries) in if bytes_less e.0 f.0 then rest else false

module _ {κ} {X : Type κ} where
  -- The bytes from `offset` to `offset + need`, by which `read4` and the slices behind `check_len` go
  unfoldable pub read_len : Bytes → ℕ → ℕ → Result (FerraError X) Bytes
  read_len buf offset need =
      if ltb (length buf) (offset + need)
      then err truncated_chunk
      else ok (slice buf offset (offset + need))

  unfoldable pub read_entries : Bytes → ℕ → ℕ → Result (FerraError X) (List Entry × ℕ)
  read_entries buf zero pos = ok ([], pos)
  read_entries buf (suc count) pos = do
    key_len ← read_len buf pos 4
    key ← read_len buf (pos + 4) (from_le_bytes key_len)
    let after = pos + 4 + from_le_bytes key_len
    value_len ← read_len buf after 4
    value ← read_len buf (after + 4) (from_le_bytes value_len)
    (entries, end) ← read_entries buf count (after + 4 + from_le_bytes value_len)
    ok ((key, value) ∷ entries, end)

  -- The checks behind the loop
  abbrev pub finish : Bytes → List Entry × ℕ → Result (FerraError X) (List Entry)
  finish buf (entries, pos) =
      if pos == length buf
      then (if keys_ascend entries then ok entries else err non_canonical_chunk)
      else err trailing_bytes

  unfoldable pub deserialize_leaf_chunk : Bytes → Result (FerraError X) (List Entry)
  deserialize_leaf_chunk [] = err empty_chunk
  deserialize_leaf_chunk (tag ∷ content) =
      if tag == 0x01
      then (do
        count ← read_len (tag ∷ content) 1 4
        read ← read_entries (tag ∷ content) (from_le_bytes count) 5
        finish (tag ∷ content) read)
      else err (unknown_codec_tag tag)
