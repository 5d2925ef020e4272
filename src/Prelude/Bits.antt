-- ===== src/Prelude/Bits.antt =====
-- Single bits of native numbers, and how `|` sets them.
use ferratomic.Prelude.Tests.{◌==◌}
use Prim.Native.Nat.{
  ℕ, zero, suc, ◌+◌, ◌*◌, ◌/◌, ◌%◌, ◌^◌, ◌≤◌, max, bit_or, digits, bit_or-bitwise,
}
use mathlib.Core.Path.{◌≡◌, refl, ap, sym, ◌∙◌}
use mathlib.Core.Bool.{Bool, true, ◌||◌}
use native.Mathlib.Omega.{arith}
use native.Mathlib.Nat.{div-div-eq-div-mul}

-- Bit `i` of `a`: the library's numbers have no test of their own.
unfoldable pub bit : ℕ → ℕ → Bool
bit a zero = a % 2 == 1
bit a (suc i) = bit (a / 2) i

-- What `|` computes, digit by digit.
abbrev or_digits : ℕ → ℕ → ℕ → ℕ
or_digits n a b = digits (λ b. b) max n a b

or_digits_fuel : (n m a b : ℕ) → a ≤ n → a ≤ m → or_digits n a b ≡ or_digits m a b
or_digits_fuel zero zero a b p q = refl
or_digits_fuel zero (suc m) zero b p q = refl
or_digits_fuel zero (suc m) (suc a) b p q = absurd (omega arith)
or_digits_fuel (suc n) zero zero b p q = refl
or_digits_fuel (suc n) zero (suc a) b p q = absurd (omega arith)
or_digits_fuel (suc n) (suc m) zero b p q = refl
or_digits_fuel (suc n) (suc m) (suc a) b p q =
    omega (arith, or_digits_fuel n m (suc a / 2) (b / 2) (omega arith) (omega arith))

zero-bit_or : (b : ℕ) → bit_or 0 b ≡ b
zero-bit_or b = bit_or-bitwise 0 b

bit_or_step : (a b : ℕ) → bit_or a b ≡ bit_or (a / 2) (b / 2) * 2 + max (a % 2) (b % 2)
bit_or_step zero b = omega (arith, zero-bit_or b, zero-bit_or (b / 2))
bit_or_step (suc a) b = omega (
  arith,
  bit_or-bitwise (suc a) b,
  bit_or-bitwise (suc a / 2) (b / 2),
  or_digits_fuel a (suc a / 2) (suc a / 2) (b / 2) (omega arith) (omega arith),
)

bit_or_half : (a b : ℕ) → bit_or a b / 2 ≡ bit_or (a / 2) (b / 2)
bit_or_half a b = omega (arith, bit_or_step a b)

-- The bits of `a | b`.
pub bit-bit_or : (a b i : ℕ) → bit (bit_or a b) i ≡ (bit a i || bit b i)
unfolding bit
bit-bit_or a b zero = ground (arith, bit_or_step a b)
bit-bit_or a b (suc i) = rw (bit_or_half a b) (bit-bit_or (a / 2) (b / 2) i)

double_half : (k : ℕ) → 2 ^ suc k / 2 ≡ 2 ^ k
double_half k = omega arith

pub bit_pow : (i : ℕ) → bit (2 ^ i) i ≡ true
unfolding bit
bit_pow zero = refl
bit_pow (suc i) = rw (double_half i) (bit_pow i)

-- `(a >> i) & 1 == 1`
pub bit-shift : (a i : ℕ) → (a / 2 ^ i % 2 == 1) ≡ bit a i
unfolding bit
bit-shift a zero = let e : a / 2 ^ 0 ≡ a = omega arith in ground arith
bit-shift a (suc i) =
    let two : 2 ^ suc i ≡ 2 * 2 ^ i = omega arith in
    let e : a / 2 ^ suc i ≡ a / 2 / 2 ^ i =
      ap (λ (m : ℕ). a / m) two ∙ sym (div-div-eq-div-mul a 2 (2 ^ i)) in
    rw e (bit-shift (a / 2) i)
