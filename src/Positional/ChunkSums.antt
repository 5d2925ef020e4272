-- ===== src/Positional/ChunkSums.antt =====
-- The chunks decompose the fingerprint of the store (INV-FERR-079).
use ferratomic.Prelude.{
  ℕ, zero, suc, ◌+◌, ◌-◌, ◌/◌, ◌<◌, ◌≡◌, refl, ap, ◌∙◌, inl, inr, Bool, true, false, List, [], ◌∷◌,
  ◌++◌, leb, length, length-append, length-replicate, replicate, All, All-append, arith, Bool-cases,
}
use ferratomic.Positional.ChunkFingerprints.{
  Hash, zero_hash, xor, xor_hash_into, xor_all, ChunkFingerprints, resize, xor_at, insert_hash,
  store_fingerprint,
}

abbrev pub IsHash : Hash → Type 0
IsHash h = length h ≡ 256

xor_swap_bits : (a b c : Bool) → xor (xor a b) c ≡ xor (xor a c) b
xor_swap_bits true true true = refl
xor_swap_bits true true false = refl
xor_swap_bits true false true = refl
xor_swap_bits true false false = refl
xor_swap_bits false true true = refl
xor_swap_bits false true false = refl
xor_swap_bits false false true = refl
xor_swap_bits false false false = refl

xor_assoc_bits : (a b c : Bool) → xor a (xor b c) ≡ xor (xor a b) c
xor_assoc_bits true true true = refl
xor_assoc_bits true true false = refl
xor_assoc_bits true false c = refl
xor_assoc_bits false b c = refl

xor_swap :
    (x c h : Hash) → xor_hash_into (xor_hash_into x c) h ≡ xor_hash_into (xor_hash_into x h) c
unfolding xor_hash_into
xor_swap [] c h = refl
xor_swap (a ∷ x) [] [] = refl
xor_swap (a ∷ x) [] (d ∷ h) = refl
xor_swap (a ∷ x) (b ∷ c) [] = refl
xor_swap (a ∷ x) (b ∷ c) (d ∷ h) = rw (xor_swap_bits a b d, xor_swap x c h) refl

xor_into_chunk :
    (x c h : Hash)
    → length x ≡ length c
    → xor_hash_into x (xor_hash_into c h) ≡ xor_hash_into (xor_hash_into x c) h
unfolding xor_hash_into
xor_into_chunk [] c h e = refl
xor_into_chunk (a ∷ x) [] h e = absurd (omega arith)
xor_into_chunk (a ∷ x) (b ∷ c) [] e = refl
xor_into_chunk (a ∷ x) (b ∷ c) (d ∷ h) e =
    rw (xor_assoc_bits a b d, xor_into_chunk x c h (omega arith)) refl

pub length-xor_hash_into : (x h : Hash) → length (xor_hash_into x h) ≡ length x
unfolding xor_hash_into
length-xor_hash_into [] h = refl
length-xor_hash_into (a ∷ x) [] = refl
length-xor_hash_into (a ∷ x) (b ∷ h) = ap suc (length-xor_hash_into x h)

xor_bit_false : (a : Bool) → xor a false ≡ a
xor_bit_false true = refl
xor_bit_false false = refl

xor_zero : (x : Hash) (n : ℕ) → xor_hash_into x (replicate n false) ≡ x
unfolding xor_hash_into
xor_zero [] n = refl
xor_zero (a ∷ x) zero = refl
xor_zero (a ∷ x) (suc n) = rw (xor_bit_false a, xor_zero x n) refl

xor_all_last :
    (x h : Hash) (cs : List Hash) → xor_all (xor_hash_into x h) cs ≡ xor_hash_into (xor_all x cs) h
unfolding xor_all
xor_all_last x h [] = refl
xor_all_last x h (c ∷ cs) =
    ap (λ y. xor_all y cs) (xor_swap x h c) ∙ xor_all_last (xor_hash_into x c) h cs

pub xor_all_at :
    (x h : Hash) (cs : List Hash) (i : ℕ)
    → IsHash x
    → All IsHash cs
    → i < length cs
    → xor_all x (xor_at cs i h) ≡ xor_hash_into (xor_all x cs) h
unfolding xor_all xor_at
xor_all_at x h [] i e a b = absurd (omega arith)
xor_all_at x h (c ∷ cs) zero e a b =
    ap (λ y. xor_all y cs) (xor_into_chunk x c h (omega (arith, e, a.0)))
    ∙ xor_all_last (xor_hash_into x c) h cs
xor_all_at x h (c ∷ cs) (suc i) e a b =
    xor_all_at (xor_hash_into x c) h cs i (length-xor_hash_into x c ∙ e) a.1 (omega arith)

pub xor_all_zeros :
    (x : Hash) (cs : List Hash) (n : ℕ) → xor_all x (cs ++ replicate n zero_hash) ≡ xor_all x cs
unfolding xor_all
xor_all_zeros x [] zero = refl
xor_all_zeros x [] (suc n) =
    ap (λ y. xor_all y (replicate n zero_hash)) (xor_zero x 256) ∙ xor_all_zeros x [] n
xor_all_zeros x (c ∷ cs) n = xor_all_zeros (xor_hash_into x c) cs n

pub zero-IsHash : IsHash zero_hash
zero-IsHash = length-replicate 256 false

pub zeros-All : (n : ℕ) → All IsHash (replicate n zero_hash)
zeros-All zero = tt
zeros-All (suc n) = (zero-IsHash, zeros-All n)

-- Putting a hash at any position xors it into the fingerprint of the store, also where the position
-- lies behind the last chunk.
pub store_fingerprint-insert_hash :
    (position : ℕ) (hash : Hash) (c : ChunkFingerprints)
    → All IsHash c.chunks
    → store_fingerprint (insert_hash position hash c) ≡ xor_hash_into (store_fingerprint c) hash
unfolding store_fingerprint insert_hash
store_fingerprint-insert_hash position hash c h =
    let idx : ℕ = position / c.chunk_size in
    elim (Bool-cases (leb (length c.chunks) idx)) [
      | inl e ↦
          let n : ℕ = idx + 1 - length c.chunks in
          rw e (
            xor_all_at zero_hash hash (resize c.chunks (idx + 1) zero_hash) idx zero-IsHash
              (All-append IsHash c.chunks (replicate n zero_hash) h (zeros-All n))
              (omega (
                arith,
                length-append c.chunks (replicate n zero_hash),
                length-replicate n zero_hash,
              ))
            ∙ ap (λ y. xor_hash_into y hash) (xor_all_zeros zero_hash c.chunks n))
      | inr e ↦ rw e (xor_all_at zero_hash hash c.chunks idx zero-IsHash h (ground arith))
    ]
