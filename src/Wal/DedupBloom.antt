-- ===== src/Wal/DedupBloom.antt =====
-- The advisory Bloom filter of the log (dedup_bloom.rs). A content hash is its 32 bytes.
pub mod Members
use ferratomic.Prelude.{
  ℕ, zero, suc, ◌+◌, ◌-◌, ◌*◌, ◌/◌, ◌%◌, ◌^◌, min, Bool, true, ◌&&◌, List, [], ◌∷◌, ◌==◌, get_or,
  set, replicate,
}
use ferratomic.Prelude.Bytes.{Bytes, slice, from_le_bytes}
use Prim.Native.Nat.{bit_or}

-- 64 KB
abbrev pub bloom_bits : ℕ
bloom_bits = 524_288

abbrev pub bloom_words : ℕ
bloom_words = bloom_bits / 64

-- Number of hash functions, `K`.
abbrev pub hashes : ℕ
hashes = 4

pub record WalDedupBloom : Type 0 where
  pub bits : List ℕ
  pub count : ℕ

-- `vec![0u64; BLOOM_WORDS]`
unfoldable pub new : WalDedupBloom
new = record { bits = replicate bloom_words 0; count = 0 }

-- h1 + i * h2 in `u64`, modulo the number of bits, for i from `i` on.
indices_from : ℕ → ℕ → ℕ → ℕ → List ℕ
indices_from zero i h1 h2 = []
indices_from (suc k) i h1 h2 =
    (h1 + i * h2 % 2 ^ 64) % 2 ^ 64 % bloom_bits ∷ indices_from k (suc i) h1 h2

unfoldable pub hash_indices : Bytes → List ℕ
unfolding indices_from
hash_indices hash =
    indices_from hashes 0 (from_le_bytes (slice hash 0 8)) (from_le_bytes (slice hash 8 16))

unfoldable pub get_bit : List ℕ → ℕ → Bool
get_bit bits idx = get_or bits (idx / 64) 0 / 2 ^ (idx % 64) % 2 == 1

unfoldable pub set_bit : List ℕ → ℕ → List ℕ
set_bit bits idx = set bits (idx / 64) (bit_or (get_or bits (idx / 64) 0) (2 ^ (idx % 64)))

all_set : List ℕ → List ℕ → Bool
all_set bits [] = true
all_set bits (idx ∷ rest) = get_bit bits idx && all_set bits rest

set_all : List ℕ → List ℕ → List ℕ
set_all bits [] = bits
set_all bits (idx ∷ rest) = set_all (set_bit bits idx) rest

unfoldable pub probably_contains : WalDedupBloom → Bytes → Bool
unfolding all_set
probably_contains b hash = all_set b.bits (hash_indices hash)

-- The counter saturates.
unfoldable pub insert : WalDedupBloom → Bytes → WalDedupBloom
unfolding set_all
insert b hash = record {
  bits = set_all b.bits (hash_indices hash);
  count = min (b.count + 1) (2 ^ 64 - 1);
}

zeroed : List ℕ → List ℕ
zeroed [] = []
zeroed (word ∷ words) = 0 ∷ zeroed words

unfoldable pub clear : WalDedupBloom → WalDedupBloom
unfolding zeroed
clear b = record { bits = zeroed b.bits; count = 0 }
