-- ===== src/Prelude/Bytes.antt =====
-- Byte arrays: slices, little-endian numbers and comparison.
use ferratomic.Prelude.Tests.{◌==◌}
use ferratomic.Prelude.Lists.{length, take, drop, take-append, drop-append, length-drop}
use Prim.Native.Nat.{ℕ, zero, suc, ◌+◌, ◌-◌, ◌*◌, ◌/◌, ◌%◌, ◌^◌, ◌<◌, ◌≤◌}
use mathlib.Core.Path.{◌≡◌, refl, ap}
use mathlib.Core.Bool.{Bool, true, false, ◌&&◌}
use mathlib.Core.List.{List, [], ◌∷◌, ◌++◌}
use native.Mathlib.Omega.{arith}

abbrev pub Bytes : Type 0
Bytes = List ℕ

-- `buf[from..to]`, for `from ≤ to ≤ buf.len()`
unfoldable pub slice {ℓ} : {A : Type ℓ} → List A → ℕ → ℕ → List A
slice buf from to = take (to - from) (drop from buf)

-- `to_le_bytes` of a number of `k` bytes, and `from_le_bytes`
unfoldable pub to_le_bytes : ℕ → ℕ → Bytes
to_le_bytes zero v = []
to_le_bytes (suc k) v = v % 256 ∷ to_le_bytes k (v / 256)

unfoldable pub from_le_bytes : Bytes → ℕ
from_le_bytes [] = 0
from_le_bytes (b ∷ bs) = b + 256 * from_le_bytes bs

unfoldable pub bytes_eq : Bytes → Bytes → Bool
bytes_eq [] [] = true
bytes_eq [] (y ∷ ys) = false
bytes_eq (x ∷ xs) [] = false
bytes_eq (x ∷ xs) (y ∷ ys) = (x == y) && bytes_eq xs ys

pub length-to_le_bytes : (k v : ℕ) → length (to_le_bytes k v) ≡ k
unfolding to_le_bytes
length-to_le_bytes zero v = refl
length-to_le_bytes (suc k) v = ap suc (length-to_le_bytes k (v / 256))

pub from_le_bytes-to_le_bytes : (k v : ℕ) → v < 256 ^ k → from_le_bytes (to_le_bytes k v) ≡ v
unfolding to_le_bytes from_le_bytes
from_le_bytes-to_le_bytes zero v h = omega arith
from_le_bytes-to_le_bytes (suc k) v h =
    omega (arith, from_le_bytes-to_le_bytes k (v / 256) (omega arith))

pub bytes_eq_refl : (xs : Bytes) → bytes_eq xs xs ≡ true
unfolding bytes_eq
bytes_eq_refl [] = refl
bytes_eq_refl (x ∷ xs) = ground (arith, bytes_eq_refl xs)

pub eq_of_bytes_eq : (xs ys : Bytes) → bytes_eq xs ys ≡ true → xs ≡ ys
unfolding bytes_eq
eq_of_bytes_eq [] [] h = refl
eq_of_bytes_eq [] (y ∷ ys) h = cc
eq_of_bytes_eq (x ∷ xs) [] h = cc
eq_of_bytes_eq (x ∷ xs) (y ∷ ys) h = ground (arith, eq_of_bytes_eq xs ys)

module _ {ℓ} {A : Type ℓ} where
  pub drop_past : (pre s : List A) (i : ℕ) → drop (length pre + i) (pre ++ s) ≡ drop i s
  drop_past [] s i = ap (λ n. drop n s) (omega arith)
  drop_past (x ∷ pre) s i =
      let e : suc (length pre) + i ≡ suc (length pre + i) = omega arith in rw e (drop_past pre s i)

  pub slice_past :
      (pre s : List A) (i j : ℕ) → slice (pre ++ s) (length pre + i) (length pre + j) ≡ slice s i j
  unfolding slice
  slice_past pre s i j =
      let e : length pre + j - (length pre + i) ≡ j - i = omega arith in
      rw (e, drop_past pre s i) refl

module _ {ℓ} {A : Type ℓ} where
  pub take_prefix : (n : ℕ) (xs ys : List A) → n ≡ length xs → take n (xs ++ ys) ≡ xs
  take_prefix n xs ys h = rw h (take-append xs ys)

  pub drop_prefix : (n : ℕ) (xs ys : List A) → n ≡ length xs → drop n (xs ++ ys) ≡ ys
  drop_prefix n xs ys h = rw h (drop-append xs ys)

  -- The slice that holds the second of three parts, and the one that holds the first of two.
  pub slice_second :
      (xs ys zs : List A) (i j : ℕ)
      → i ≡ length xs
      → j ≡ i + length ys
      → slice (xs ++ (ys ++ zs)) i j ≡ ys
  unfolding slice
  slice_second xs ys zs i j h k =
      rw (drop_prefix i xs (ys ++ zs) h) (take_prefix (j - i) ys zs (omega arith))

  pub slice_first : (xs ys : List A) (j : ℕ) → j ≡ length xs → slice (xs ++ ys) 0 j ≡ xs
  slice_first xs ys j h = slice_second [] xs ys 0 j refl (omega arith)

  take_within : (n : ℕ) (s t : List A) → n ≤ length s → take n (s ++ t) ≡ take n s
  take_within zero s t h = refl
  take_within (suc n) [] t h = absurd (omega arith)
  take_within (suc n) (x ∷ s) t h = ap (λ r. x ∷ r) (take_within n s t (omega arith))

  drop_within : (n : ℕ) (s t : List A) → n ≤ length s → drop n (s ++ t) ≡ drop n s ++ t
  drop_within zero s t h = refl
  drop_within (suc n) [] t h = absurd (omega arith)
  drop_within (suc n) (x ∷ s) t h = drop_within n s t (omega arith)

  -- A slice of the front does not depend on what follows the front.
  pub slice_within :
      (s t : List A) (i j : ℕ) → i ≤ j → j ≤ length s → slice (s ++ t) i j ≡ slice s i j
  unfolding slice
  slice_within s t i j h k =
      rw (drop_within i s t (omega arith))
        (take_within (j - i) (drop i s) t (omega (arith, length-drop i s)))
