-- ===== src/Examples/Sums.antt =====
-- Chunk fingerprints at concrete positions.
use ferratomic.Prelude.{
  ◌≡◌, ◌^◌, some, none, arith, refl, true, false, [], ◌∷◌, length, replicate, List,
}
use ferratomic.Positional.ChunkFingerprints.{
  Hash, zero_hash, ChunkFingerprints, xor_at, insert_hash, store_fingerprint, is_power_of_two, ones,
  from_canonical, compute_fingerprint, mark_dirty, dirty_chunks, clear_dirty,
}
use ferratomic.Positional.ChunkDecomposition.{store_fingerprint-from_canonical}

abbrev one_chunk : ChunkFingerprints
one_chunk = record { chunks = zero_hash ∷ []; chunk_size = 4; dirty = false ∷ [] }

abbrev all_ones : Hash
all_ones = replicate 256 true

-- Position 9 lies in the third chunk.
grown_to_three : length (insert_hash 9 all_ones one_chunk).chunks ≡ 3
unfolding insert_hash xor_at
grown_to_three = refl

abbrev three_hashes : List Hash
three_hashes = all_ones ∷ zero_hash ∷ all_ones ∷ []

store_fingerprint-from_canonical_example :
    (c : ChunkFingerprints) × (from_canonical three_hashes (2 ^ 1) ≡ some c)
    × (store_fingerprint c ≡ compute_fingerprint three_hashes)
store_fingerprint-from_canonical_example =
    store_fingerprint-from_canonical three_hashes 1 (omega arith)

-- The size of a chunk is a power of two.
size_three_refused : from_canonical three_hashes 3 ≡ none
unfolding from_canonical is_power_of_two
size_three_refused = refl

only_third_dirty : dirty_chunks (insert_hash 9 all_ones one_chunk) ≡ 2 ∷ []
unfolding dirty_chunks ones insert_hash
only_third_dirty = refl

marked_beyond_end : dirty_chunks (mark_dirty 3 one_chunk) ≡ 3 ∷ []
unfolding dirty_chunks ones mark_dirty
marked_beyond_end = refl

cleared : dirty_chunks (clear_dirty (mark_dirty 3 one_chunk)) ≡ []
unfolding dirty_chunks ones mark_dirty clear_dirty
cleared = refl
