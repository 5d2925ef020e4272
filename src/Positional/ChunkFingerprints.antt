-- ===== src/Positional/ChunkFingerprints.antt =====
-- Fingerprints of a store and of its chunks (fingerprint.rs, chunk_fingerprints.rs). A hash is its
-- bits, 256 of them; a datom enters by its content hash.
use ferratomic.Prelude.{
  Option, none, some, ◌%◌, ◌^◌, ◌==◌, max, get_or, ℕ, zero, suc, ◌+◌, ◌-◌, ◌/◌, Bool, true, false,
  not, List, [], ◌∷◌, ◌++◌, leb, if◌then◌else◌, length, replicate, set,
}

abbrev pub Hash : Type 0
Hash = List Bool

abbrev pub zero_hash : Hash
zero_hash = replicate 256 false

abbrev pub xor : Bool → Bool → Bool
xor a b = if a then not b else b

-- `xor_hash_into`
unfoldable pub xor_hash_into : Hash → Hash → Hash
xor_hash_into [] hash = []
xor_hash_into (a ∷ fp) [] = a ∷ fp
xor_hash_into (a ∷ fp) (b ∷ hash) = xor a b ∷ xor_hash_into fp hash

-- All hashes go into `fp` in turn.
unfoldable pub xor_all : Hash → List Hash → Hash
xor_all fp [] = fp
xor_all fp (hash ∷ hashes) = xor_all (xor_hash_into fp hash) hashes

-- `compute_fingerprint`, from the content hashes of the datoms
abbrev pub compute_fingerprint : List Hash → Hash
compute_fingerprint hashes = xor_all zero_hash hashes

pub record ChunkFingerprints : Type 0 where
  pub chunks : List Hash
  pub chunk_size : ℕ
  pub dirty : List Bool

-- `resize` to a length that is not smaller
abbrev pub resize {ℓ} : {A : Type ℓ} → List A → ℕ → A → List A
resize l n a = l ++ replicate (n - length l) a

-- `xor_hash_into(&mut chunks[idx], hash)`
unfoldable pub xor_at : List Hash → ℕ → Hash → List Hash
xor_at [] idx hash = []
xor_at (chunk ∷ chunks) zero hash = xor_hash_into chunk hash ∷ chunks
xor_at (chunk ∷ chunks) (suc idx) hash = chunk ∷ xor_at chunks idx hash

abbrev pub grown : ℕ → ChunkFingerprints → ChunkFingerprints
grown idx c =
    if leb (length c.chunks) idx
    then record c {
      chunks = resize c.chunks (idx + 1) zero_hash;
      dirty = resize c.dirty (idx + 1) false;
    }
    else c

unfoldable pub insert_hash : ℕ → Hash → ChunkFingerprints → ChunkFingerprints
insert_hash position hash c =
    let idx = position / c.chunk_size in
    let g = grown idx c in
    record g { chunks = xor_at g.chunks idx hash; dirty = set g.dirty idx true }

unfoldable pub store_fingerprint : ChunkFingerprints → Hash
store_fingerprint c = xor_all zero_hash c.chunks

-- `usize::is_power_of_two`, of a number of at most `w` bits
unfoldable pub is_power_of_two : ℕ → ℕ → Bool
is_power_of_two zero n = false
is_power_of_two (suc w) n = if n == 2 ^ w then true else is_power_of_two w n

abbrev pub div_ceil : ℕ → ℕ → ℕ
div_ceil n d = if n % d == 0 then n / d else n / d + 1

-- The loop of `from_canonical`, at position `pos`
unfoldable pub xor_positions : ℕ → ℕ → List Hash → List Hash → List Hash
xor_positions chunk_size pos chunks [] = chunks
xor_positions chunk_size pos chunks (hash ∷ hashes) =
    xor_positions chunk_size (pos + 1) (xor_at chunks (pos / chunk_size) hash) hashes

-- `from_canonical`, on the content hashes of the datoms; `none` is its panic.
abbrev pub built : List Hash → ℕ → ChunkFingerprints
built hashes chunk_size =
    let num_chunks = div_ceil (length hashes) chunk_size in
    record {
      chunks = xor_positions chunk_size 0 (replicate num_chunks zero_hash) hashes;
      chunk_size = chunk_size;
      dirty = replicate num_chunks false;
    }

unfoldable pub from_canonical : List Hash → ℕ → Option ChunkFingerprints
from_canonical hashes chunk_size =
    if is_power_of_two 64 chunk_size then some (built hashes chunk_size) else none

abbrev pub chunk_at : ChunkFingerprints → ℕ → Hash
chunk_at c idx = get_or c.chunks idx zero_hash

-- `a != b` on hashes
unfoldable pub differ : Hash → Hash → Bool
differ [] [] = false
differ [] (b ∷ h) = true
differ (a ∷ g) [] = true
differ (a ∷ g) (b ∷ h) = if xor a b then true else differ g h

-- The loop of `diff_chunks` over the `n` indices from `i` on
unfoldable pub differing : ℕ → ℕ → ChunkFingerprints → ChunkFingerprints → List ℕ
differing zero i c d = []
differing (suc n) i c d =
    let rest = differing n (i + 1) c d in
    if differ (chunk_at c i) (chunk_at d i) then i ∷ rest else rest

unfoldable pub diff_chunks : ChunkFingerprints → ChunkFingerprints → List ℕ
diff_chunks c d = differing (max (length c.chunks) (length d.chunks)) 0 c d

unfoldable pub mark_dirty : ℕ → ChunkFingerprints → ChunkFingerprints
mark_dirty chunk_idx c =
    let dirty =
      if leb (length c.dirty) chunk_idx then resize c.dirty (chunk_idx + 1) false else c.dirty in
    record c { dirty = set dirty chunk_idx true }

-- `iter_ones`, from bit `i` on
unfoldable pub ones : ℕ → List Bool → List ℕ
ones i [] = []
ones i (bit ∷ bits) = if bit then i ∷ ones (i + 1) bits else ones (i + 1) bits

unfoldable pub dirty_chunks : ChunkFingerprints → List ℕ
dirty_chunks c = ones 0 c.dirty

-- The `fill` with `false`
unfoldable pub clear_dirty : ChunkFingerprints → ChunkFingerprints
clear_dirty c = record c { dirty = replicate (length c.dirty) false }
