-- ===== src/Datom/Inverse.antt =====
-- What each reader has read, when it succeeds.
use ferratomic.Prelude.{
  ℕ, zero, suc, ◌+◌, ◌-◌, ◌*◌, ◌^◌, ◌/◌, ◌%◌, ◌≤◌, ◌<◌, ◌≡◌, refl, sym, ap, ◌∙◌, ◌⊎◌, inl, inr,
  Bool, true, false, [], ◌∷◌, ◌++◌, arith, length, length-take, length-drop, take, drop, take_all,
  All, ltb, if◌then◌else◌,
}
use ferratomic.Prelude.Results.{Result, ok, err, ◌>>=◌}
use ferratomic.Prelude.Bytes.{Bytes, slice, to_le_bytes, from_le_bytes}
use ferratomic.Datom.Decode.{DecodeError, read_number}

abbrev pub IsByte : ℕ → Type 0
IsByte b = b < 256

pub All-take : (n : ℕ) (s : Bytes) → All IsByte s → All IsByte (take n s)
All-take zero s h = tt
All-take (suc n) [] h = tt
All-take (suc n) (b ∷ s) h = (h.0, All-take n s h.1)

pub All-drop : (n : ℕ) (s : Bytes) → All IsByte s → All IsByte (drop n s)
All-drop zero s h = h
All-drop (suc n) [] h = tt
All-drop (suc n) (b ∷ s) h = All-drop n s h.1

next_bound : (k b n : ℕ) → b < 256 → n < 256 ^ k → b + 256 * n < 256 ^ suc k
next_bound k b n h g = omega arith

pub from_le_bytes_bound : (s : Bytes) → All IsByte s → from_le_bytes s < 256 ^ length s
unfolding from_le_bytes
from_le_bytes_bound [] h = omega arith
from_le_bytes_bound (b ∷ s) h = next_bound (length s) b _ h.0 (from_le_bytes_bound s h.1)

to_le_bytes-from_le_bytes_self :
    (s : Bytes) → All IsByte s → to_le_bytes (length s) (from_le_bytes s) ≡ s
unfolding from_le_bytes to_le_bytes
to_le_bytes-from_le_bytes_self [] h = refl
to_le_bytes-from_le_bytes_self (b ∷ s) h =
    let low : (b + 256 * from_le_bytes s) % 256 ≡ b = omega (arith, h.0) in
    let high : (b + 256 * from_le_bytes s) / 256 ≡ from_le_bytes s = omega (arith, h.0) in
    rw (low, high, to_le_bytes-from_le_bytes_self s h.1) refl

pub to_le_bytes-from_le_bytes :
    {k : ℕ} (s : Bytes)
    → length s ≡ k
    → All IsByte s
    → (from_le_bytes s < 256 ^ k) × (to_le_bytes k (from_le_bytes s) ≡ s)
to_le_bytes-from_le_bytes s e h =
    rw (sym e) (from_le_bytes_bound s h, to_le_bytes-from_le_bytes_self s h)

pub slice-All : (s : Bytes) (i j : ℕ) → All IsByte s → All IsByte (slice s i j)
unfolding slice
slice-All s i j h = All-take (j - i) (drop i s) (All-drop i s h)

pub length-slice : (s : Bytes) (i j : ℕ) → j ≤ length s → length (slice s i j) ≡ j - i
unfolding slice
length-slice s i j h = omega (arith, length-take (j - i) (drop i s), length-drop i s)

take_nil : (n : ℕ) → take {A = ℕ} n [] ≡ []
take_nil zero = refl
take_nil (suc n) = refl

drop_nil : (n : ℕ) → drop {A = ℕ} n [] ≡ []
drop_nil zero = refl
drop_nil (suc n) = refl

take_add : (m n : ℕ) (s : Bytes) → take (m + n) s ≡ take m s ++ take n (drop m s)
take_add zero n s = ap (λ k. take k s) (omega arith)
take_add (suc m) n [] = let e : suc m + n ≡ suc (m + n) = omega arith in rw e (sym (take_nil n))
take_add (suc m) n (b ∷ s) =
    let e : suc m + n ≡ suc (m + n) = omega arith in rw e (ap (λ r. b ∷ r) (take_add m n s))

drop_add : (m n : ℕ) (s : Bytes) → drop (m + n) s ≡ drop n (drop m s)
drop_add zero n s = ap (λ k. drop k s) (omega arith)
drop_add (suc m) n [] = let e : suc m + n ≡ suc (m + n) = omega arith in rw e (sym (drop_nil n))
drop_add (suc m) n (b ∷ s) = let e : suc m + n ≡ suc (m + n) = omega arith in rw e (drop_add m n s)

-- Two slices that meet.
pub slice_glue : (s : Bytes) (i j k : ℕ) → i ≤ j → j ≤ k → slice s i j ++ slice s j k ≡ slice s i k
unfolding slice
slice_glue s i j k h g =
    let whole : k - i ≡ (j - i) + (k - j) = omega arith in
    let start : i + (j - i) ≡ j = omega arith in
    rw whole (
      ap (λ r. take (j - i) (drop i s) ++ take (k - j) r)
        (ap (λ n. drop n s) (sym start) ∙ drop_add i (j - i) s)
      ∙ sym (take_add (j - i) (k - j) (drop i s)))

pub slice_front : (s : Bytes) (k : ℕ) → slice s 0 k ≡ take k s
unfolding slice
slice_front s k = ap (λ n. take n s) (omega arith)

pub slice_whole : (s : Bytes) → slice s 0 (length s) ≡ s
slice_whole s = slice_front s (length s) ∙ take_all (length s) s (omega arith)

pub if-cases {ℓ} :
    {A : Type ℓ} (b : Bool) {x y z : A}
    → (if b then x else y) ≡ z
    → ((b ≡ true) × (x ≡ z)) ⊎ ((b ≡ false) × (y ≡ z))
if-cases true h = inl (refl, h)
if-cases false h = inr (refl, h)

pub value_of {ℓ} : {A : Type ℓ} {a b : A} → ◌≡◌ {A = Result DecodeError A} (ok a) (ok b) → b ≡ a
value_of e = cc

pub bind_ok {ℓ κ} :
    {A : Type ℓ} {B : Type κ} (r : Result DecodeError A) (f : A → Result DecodeError B) {b : B}
    → (r >>= f) ≡ ok b
    → (a : A) × (r ≡ ok a) × (f a ≡ ok b)
bind_ok (ok a) f h = (a, refl, h)
bind_ok (err e) f h = cc

pub read_number_ok :
    (k : ℕ) (s : Bytes) {n : ℕ}
    → read_number k s ≡ ok n
    → All IsByte s
    → (k ≤ length s) × (n < 256 ^ k) × (to_le_bytes k n ≡ take k s)
unfolding read_number
read_number_ok k s {n = n} h b = elim (if-cases (ltb (length s) k) h) [
  | inl (_, e) ↦ cc
  | inr (long, e) ↦
      let big : k ≤ length s = ground arith in
      let (bound, same) =
        to_le_bytes-from_le_bytes (take k s) (omega (arith, length-take k s)) (All-take k s b) in
      let found : n ≡ from_le_bytes (take k s) = value_of e ∙ ap from_le_bytes (slice_front s k) in
      (big, rw found bound, rw found same)
]
