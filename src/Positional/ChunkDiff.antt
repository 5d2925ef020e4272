-- ===== src/Positional/ChunkDiff.antt =====
-- Which chunks two stores have to exchange (chunk_fingerprints.rs, `diff_chunks`).
use ferratomic.Prelude.{
  ℕ, zero, suc, ◌+◌, ◌<◌, ◌≤◌, max, ◌≡◌, ◌≢◌, refl, ◌∙◌, ◌⊎◌, inl, inr, ltb, ◌==◌, sym, ◌↔◌, Bool,
  true, false, List, [], ◌∷◌, length, get_or, arith, Bool-cases,
}
use ferratomic.Positional.ChunkFingerprints.{
  Hash, zero_hash, xor, ChunkFingerprints, chunk_at, differ, differing, diff_chunks,
}

-- `i` is an element of the list.
abbrev pub IsListed : ℕ → List ℕ → Type 0
IsListed i [] = ⊥
IsListed i (j ∷ js) = (i ≡ j) ⊎ IsListed i js

bits_agree : (a b : Bool) → xor a b ≡ false → a ≡ b
bits_agree true true e = refl
bits_agree true false e = cc
bits_agree false true e = cc
bits_agree false false e = refl

differ-false : (g h : Hash) → differ g h ≡ false → g ≡ h
unfolding differ
differ-false [] [] e = refl
differ-false [] (b ∷ h) e = cc
differ-false (a ∷ g) [] e = cc
differ-false (a ∷ g) (b ∷ h) e = elim (Bool-cases (xor a b)) [
  | inl x ↦ absurd (ground (arith, x, e))
  | inr x ↦ rw (bits_agree a b x, differ-false g h (rw x at e)) refl
]

bits_same : (a : Bool) → xor a a ≡ false
bits_same true = refl
bits_same false = refl

differ_self : (g : Hash) → differ g g ≡ false
unfolding differ
differ_self [] = refl
differ_self (a ∷ g) = rw (bits_same a, differ_self g) refl

differ_lem : (g h : Hash) → (differ g h ≡ true) ↔ (g ≢ h)
differ_lem g h = (
  (λ t e. let same : differ g h ≡ false = rw e (differ_self h) in ground (arith, t, same)),
  (λ ne. elim (Bool-cases (differ g h)) [ inl t ↦ t | inr f ↦ absurd (ne (differ-false g h f)) ]),
)

differing-IsListed :
    (n i j : ℕ) (c d : ChunkFingerprints)
    → IsListed j (differing n i c d)
      ↔ ((i ≤ j) × (j < i + n) × (differ (chunk_at c j) (chunk_at d j) ≡ true))
unfolding differing
differing-IsListed zero i j c d = ((λ h. absurd h), (λ h. omega arith))
differing-IsListed (suc n) i j c d =
    let (within, listed) = differing-IsListed n (i + 1) j c d in
    elim (Bool-cases (differ (chunk_at c i) (chunk_at d i))) [
      | inl e ↦ rw e (
        (λ h. elim h [
          | inl same ↦ (omega arith, omega arith, rw same e)
          | inr later ↦ let (a, b, t) = within later in (omega arith, omega arith, t)
        ]),
        (λ (a, b, t). elim (Bool-cases (j == i)) [
          | inl same ↦ inl (ground arith)
          | inr later ↦ inr (listed (ground arith, omega arith, t))
        ]),
      )
      | inr e ↦ rw e (
        (λ later. let (a, b, t) = within later in (omega arith, omega arith, t)),
        (λ (a, b, t). elim (Bool-cases (j == i)) [
          | inl same ↦ let here : j ≡ i = ground arith in absurd (ground (arith, e, rw here at t))
          | inr later ↦ listed (ground arith, omega arith, t)
        ]),
      )
    ]

get_or_past : {A : Type 0} (xs : List A) (i : ℕ) (a : A) → length xs ≤ i → get_or xs i a ≡ a
get_or_past [] i a b = refl
get_or_past (x ∷ xs) zero a b = absurd (omega arith)
get_or_past (x ∷ xs) (suc i) a b = get_or_past xs i a (omega arith)

-- `diff_chunks` lists exactly the positions at which the chunks of the two stores have different
-- fingerprints, a missing chunk being one with the zero fingerprint.
pub diff_chunks-IsListed :
    (c d : ChunkFingerprints) (i : ℕ) → IsListed i (diff_chunks c d) ↔ (chunk_at c i ≢ chunk_at d i)
unfolding diff_chunks
diff_chunks-IsListed c d i =
    let (within, listed) = differing-IsListed (max (length c.chunks) (length d.chunks)) 0 i c d in
    let (unequal, differs) = differ_lem (chunk_at c i) (chunk_at d i) in
    (
      (λ h. unequal (within h).2),
      (λ ne. elim (Bool-cases (ltb i (max (length c.chunks) (length d.chunks)))) [
        | inl inside ↦ listed (omega arith, ground arith, differs ne)
        | inr past ↦ absurd (
            ne (
              get_or_past c.chunks i zero_hash (ground arith)
              ∙ sym (get_or_past d.chunks i zero_hash (ground arith))))
      ]),
    )
