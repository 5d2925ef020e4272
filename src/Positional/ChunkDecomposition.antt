-- ===== src/Positional/ChunkDecomposition.antt =====
-- The fingerprints of the chunks of an array of datoms (chunk_fingerprints.rs, INV-FERR-079).
use ferratomic.Prelude.{
  ℕ, zero, suc, ◌+◌, ◌/◌, ◌%◌, ◌^◌, ◌<◌, ◌==◌, ◌≡◌, refl, ap, ◌∙◌, inl, inr, true, none, some,
  if◌then◌else◌, List, [], ◌∷◌, length, length-replicate, replicate, All, arith, Bool-cases,
}
use ferratomic.Positional.ChunkFingerprints.{
  Hash, zero_hash, xor_all, compute_fingerprint, ChunkFingerprints, xor_at, is_power_of_two,
  div_ceil, built, xor_positions, from_canonical, store_fingerprint,
}
use ferratomic.Positional.ChunkSums.{
  IsHash, length-xor_hash_into, xor_all_at, xor_all_zeros, zero-IsHash, zeros-All,
}
use native.Mathlib.Nat.{div-lt_iff_lt-mul, lt-div-mul-add, div-add-mod}

power-is_power_of_two : (w k : ℕ) → k < w → is_power_of_two w (2 ^ k) ≡ true
unfolding is_power_of_two
power-is_power_of_two zero k b = absurd (omega arith)
power-is_power_of_two (suc w) k b = elim (Bool-cases (k == w)) [
  | inl e ↦ let same : k ≡ w = ground arith in rw same (ground arith)
  | inr e ↦ ground (arith, power-is_power_of_two w k (ground arith))
]

length-xor_at : (chunks : List Hash) (i : ℕ) (h : Hash) → length (xor_at chunks i h) ≡ length chunks
unfolding xor_at
length-xor_at [] i h = refl
length-xor_at (c ∷ cs) zero h = refl
length-xor_at (c ∷ cs) (suc i) h = ap suc (length-xor_at cs i h)

xor_at-All :
    (chunks : List Hash) (i : ℕ) (h : Hash) → All IsHash chunks → All IsHash (xor_at chunks i h)
unfolding xor_at
xor_at-All [] i h a = tt
xor_at-All (c ∷ cs) zero h a = (length-xor_hash_into c h ∙ a.0, a.1)
xor_at-All (c ∷ cs) (suc i) h a = (a.0, xor_at-All cs i h a.1)

-- The loop xors every hash into the sum of the chunks, as long as each position has its chunk.
xor_all-xor_positions :
    (size pos : ℕ) (chunks hashes : List Hash)
    → All IsHash chunks
    → ((p : ℕ) → p < pos + length hashes → p / size < length chunks)
    → xor_all zero_hash (xor_positions size pos chunks hashes)
      ≡ xor_all (xor_all zero_hash chunks) hashes
unfolding xor_all xor_positions
xor_all-xor_positions size pos chunks [] a fits = refl
xor_all-xor_positions size pos chunks (h ∷ hashes) a fits =
    xor_all-xor_positions size (pos + 1) (xor_at chunks (pos / size) h) hashes
      (xor_at-All chunks (pos / size) h a)
      (λ p b. omega (arith, length-xor_at chunks (pos / size) h, fits p (omega arith)))
    ∙ ap (λ x. xor_all x hashes)
        (xor_all_at zero_hash h chunks (pos / size) zero-IsHash a (fits pos (omega arith)))

div_ceil_fits : (n d p : ℕ) → 0 < d → p < n → p / d < div_ceil n d
div_ceil_fits n d p pos b = (div-lt_iff_lt-mul pos).1 (elim (Bool-cases (n % d == 0)) [
  | inl e ↦ rw e (ground (arith, div-add-mod n d))
  | inr e ↦ rw e (omega (arith, lt-div-mul-add {a = n} pos))
])

pow_pos : (k : ℕ) → 0 < 2 ^ k
pow_pos zero = omega arith
pow_pos (suc k) = omega (arith, pow_pos k)

-- Built from an array of datoms, with any power of two as the size of a chunk, the fingerprint of the
-- store is the fingerprint of the array.
pub store_fingerprint-from_canonical :
    (hashes : List Hash) (k : ℕ)
    → k < 64
    → (c : ChunkFingerprints) × (from_canonical hashes (2 ^ k) ≡ some c)
      × (store_fingerprint c ≡ compute_fingerprint hashes)
unfolding from_canonical store_fingerprint xor_all
store_fingerprint-from_canonical hashes k b =
    let size : ℕ = 2 ^ k in
    let n : ℕ = div_ceil (length hashes) size in
    (
      built hashes size,
      ap (λ t. if t then some (built hashes size) else none) (power-is_power_of_two 64 k b),
      xor_all-xor_positions size 0 (replicate n zero_hash) hashes (zeros-All n) (λ p below.
            rw (length-replicate n zero_hash)
              (div_ceil_fits (length hashes) size p (pow_pos k) (omega arith)))
          ∙ ap (λ x. xor_all x hashes) (xor_all_zeros zero_hash [] n),
    )
