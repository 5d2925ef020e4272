-- ===== src/Prolly/Split.antt =====
-- The chunks of one level (ferratomic-core/src/prolly/build.rs): nothing is lost, and the sizes.
use ferratomic.Prelude.{
  ℕ, ◌<◌, ◌≤◌, ◌≡◌, refl, inl, inr, true, false, not, ◌&&◌, List, [], ◌∷◌, ◌++◌, append_assoc,
  length, length-append, arith, Bool-cases,
}
use ferratomic.Prelude.Bytes.{Bytes}
use ferratomic.Prolly.Boundary.{
  min_chunk_size, max_chunk_size, is_boundary, is_empty, split_from, split_at_boundaries,
}

unfoldable pub concat {ℓ} : {A : Type ℓ} → List (List A) → List A
concat [] = []
concat (g ∷ gs) = g ++ concat gs

-- No chunk is empty or above the maximum, and only the last may be below the minimum.
abbrev pub IsSized {ℓ} : {A : Type ℓ} → List (List A) → Type 0
IsSized [] = Unit
IsSized (g ∷ []) = (1 ≤ length g) × (length g ≤ max_chunk_size)
IsSized (g ∷ h ∷ gs) = (min_chunk_size ≤ length g) × (length g ≤ max_chunk_size) × IsSized (h ∷ gs)

cons-IsSized {ℓ} :
    {A : Type ℓ} (g : List A) (gs : List (List A))
    → min_chunk_size ≤ length g
    → length g ≤ max_chunk_size
    → IsSized gs
    → IsSized (g ∷ gs)
cons-IsSized g [] low high s = (omega arith, high)
cons-IsSized g (h ∷ gs) low high s = (low, high, s)

boundary_low :
    (table : ℕ → ℕ) (key : Bytes) (w n : ℕ) → is_boundary table key w n ≡ true → min_chunk_size ≤ n
unfolding is_boundary
boundary_low table key w n h = ground arith

boundary_high :
    (table : ℕ → ℕ) (key : Bytes) (w n : ℕ) → is_boundary table key w n ≡ false → n < max_chunk_size
unfolding is_boundary
boundary_high table key w n h = ground arith

module _ {ℓ} {A : Type ℓ} (table : ℕ → ℕ) (w : ℕ) (key_of : A → Bytes) where
  concat-split_from :
      (current entries : List A)
      → concat (split_from table w key_of current entries) ≡ current ++ entries
  unfolding concat split_from is_empty
  concat-split_from [] [] = refl
  concat-split_from (c ∷ cs) [] = refl
  concat-split_from current (e ∷ es) =
      elim (Bool-cases
        (not (is_empty es) && is_boundary table (key_of e) w (length (current ++ e ∷ [])))) [
          | inl cut ↦ rw (cut, concat-split_from [] es) (append_assoc current (e ∷ []) es)
          | inr kept ↦
              rw (kept, concat-split_from (current ++ e ∷ []) es) (append_assoc current (e ∷ []) es)
        ]

  split_from-IsSized :
      (current entries : List A)
      → length current ≤ max_chunk_size
      → (is_empty entries ≡ false → length current < max_chunk_size)
      → IsSized (split_from table w key_of current entries)
  unfolding split_from is_empty
  split_from-IsSized [] [] b s = tt
  split_from-IsSized (c ∷ cs) [] b s = (omega arith, b)
  split_from-IsSized current (e ∷ []) b s =
      split_from-IsSized (current ++ e ∷ []) []
        (omega (arith, s refl, length-append current (e ∷ []))) (λ h. cc)
  split_from-IsSized current (e ∷ f ∷ es) b s =
      let grown : List A = current ++ e ∷ [] in
      let high : length grown ≤ max_chunk_size =
        omega (arith, s refl, length-append current (e ∷ [])) in
      elim (Bool-cases (is_boundary table (key_of e) w (length grown))) [
        | inl cut ↦ rw cut (
            cons-IsSized grown (split_from table w key_of [] (f ∷ es))
              (boundary_low table (key_of e) w (length grown) cut) high
              (split_from-IsSized [] (f ∷ es) (omega arith) (λ h. omega arith)))
        | inr kept ↦ rw kept (
            split_from-IsSized grown (f ∷ es) high
              (λ h. boundary_high table (key_of e) w (length grown) kept))
      ]

  -- The chunks of a level hold its entries in their order, none is empty or has more than 1024, and
  -- only the last may have fewer than 32, whatever the hash is.
  pub split_at_boundaries-IsSized :
      (entries : List A)
      → (concat (split_at_boundaries table w key_of entries) ≡ entries)
        × IsSized (split_at_boundaries table w key_of entries)
  unfolding split_at_boundaries
  split_at_boundaries-IsSized entries =
      (concat-split_from [] entries, split_from-IsSized [] entries (omega arith) (λ h. omega arith))

-- There are at most as many chunks as entries.
pub length-le_concat {ℓ} :
    {A : Type ℓ} (gs : List (List A)) → IsSized gs → length gs ≤ length (concat gs)
unfolding concat
length-le_concat [] s = omega arith
length-le_concat (g ∷ []) s = omega (arith, length-append g [], s.0)
length-le_concat (g ∷ h ∷ gs) s =
    omega (arith, length-append g (h ++ concat gs), length-le_concat (h ∷ gs) s.2, s.0)

-- A level of two entries or more has fewer chunks than entries.
pub length-lt_concat {ℓ} :
    {A : Type ℓ} (gs : List (List A))
    → IsSized gs
    → 2 ≤ length (concat gs)
    → length gs < length (concat gs)
unfolding concat
length-lt_concat [] s b = omega arith
length-lt_concat (g ∷ []) s b = omega arith
length-lt_concat (g ∷ h ∷ gs) s b =
    omega (arith, length-append g (h ++ concat gs), length-le_concat (h ∷ gs) s.2, s.0)
