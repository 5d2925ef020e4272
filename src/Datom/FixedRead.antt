-- ===== src/Datom/FixedRead.antt =====
-- The bytes from which a value of fixed size is read are its canonical bytes.
use ferratomic.Prelude.{
  ℕ, suc, ◌^◌, ◌≤◌, ◌<◌, ◌≡◌, ◌≢◌, refl, sym, ap, ◌∙◌, inl, inr, true, false, [], ◌∷◌, ltb, arith,
  length, length-take, take, All, if◌then◌else◌, ◌==◌, ==_iff, Bool-cases,
}
use ferratomic.Prelude.Results.{Result, ok, err, ◌>>=◌}
use ferratomic.Prelude.Bytes.{Bytes, to_le_bytes, length-to_le_bytes}
use ferratomic.Datom.Types.{
  Value, long, double, bool, instant, uuid, ref, big_int, big_dec, is_nan, plus_zero, negative_zero,
  IsValue,
}
use ferratomic.Datom.Encode.{canonical_value_bytes}
use ferratomic.Datom.Decode.{
  DecodeError, read_number, read_array, parse_fixed_value, non_nan, parse_bool, with_size,
  non_canonical_chunk,
}
use ferratomic.Datom.Inverse.{IsByte, slice_front, if-cases, bind_ok, value_of, read_number_ok}

-- `n` bytes of `s` were read, and are the canonical bytes of a value, which is not -0.0.
pub record Reads (s : Bytes) (v : Value) (n : ℕ) : Type 0 where
  pub within : n ≤ length s
  pub value : IsValue v
  pub same : v ≢ double negative_zero → canonical_value_bytes v ≡ take n s
  pub size : length (canonical_value_bytes v) ≡ n

read_array_ok :
    (k : ℕ) (s : Bytes) {a : Bytes}
    → read_array k s ≡ ok a
    → (k ≤ length s) × (length a ≡ k) × (a ≡ take k s)
unfolding read_array
read_array_ok k s {a = a} h = elim (if-cases (ltb (length s) k) h) [
  | inl (_, e) ↦ cc
  | inr (wide, e) ↦
      let big : k ≤ length s = ground arith in
      let found : a ≡ take k s = value_of e ∙ slice_front s k in
      (big, rw found (omega (arith, length-take k s)), found)
]

pub same_result :
    {s : Bytes} {v w : Value} {n m : ℕ}
    → ◌≡◌ {A = Result DecodeError (Value × ℕ)} (ok (w, m)) (ok (v, n))
    → Reads s w m
    → Reads s v n
same_result {s} {v} {w} {n} {m} e r =
    let e1 : v ≡ w = ap (λ p. p.0) (value_of e) in
    let e2 : n ≡ m = ap (λ p. p.1) (value_of e) in rw (e1, e2) r

-- A tag and a fixed number of bytes.
pub fixed :
    (k tag : ℕ) (rest w : Bytes) (v : Value)
    → k ≤ length rest
    → w ≡ take k rest
    → canonical_value_bytes v ≡ tag ∷ w
    → IsValue v
    → Reads (tag ∷ rest) v (suc k)
fixed k tag rest w v big same code valid = record {
  within = omega arith;
  value = valid;
  same = λ _. code ∙ ap (λ r. tag ∷ r) same;
  size =
      ap {B = ℕ} length code ∙ ap suc (ap {B = ℕ} length same ∙ length-take k rest ∙ omega arith);
}

plus_zero_other : (f : ℕ) → double f ≢ double negative_zero → plus_zero f ≡ f
plus_zero_other f h = elim (Bool-cases (f == negative_zero)) [
  | inl e ↦ absurd (h (ap double ((==_iff f negative_zero).0 e)))
  | inr e ↦ rw e refl
]

bool_Reads : (rest : Bytes) {v : Value} {n : ℕ} → parse_bool rest ≡ ok (v, n) → Reads (5 ∷ rest) v n
unfolding canonical_value_bytes
bool_Reads [] h = cc
bool_Reads (b ∷ rest) h = elim (if-cases (b == 0x00) h) [
  | inl (e, r) ↦ same_result r (
      fixed 1 5 (b ∷ rest) (0 ∷ []) (bool false) (omega arith)
        (ap (λ c. c ∷ []) (sym ((==_iff b 0x00).0 e))) refl tt)
  | inr (_, h2) ↦ elim (if-cases (b == 0x01) h2) [
    | inl (e, r) ↦ same_result r (
        fixed 1 5 (b ∷ rest) (1 ∷ []) (bool true) (omega arith)
          (ap (λ c. c ∷ []) (sym ((==_iff b 0x01).0 e))) refl tt)
    | inr (_, bad) ↦ cc
  ]
]

-- The arms that read a number and have nothing to test.
number_Reads :
    (k tag : ℕ) (value : ℕ → Value) (rest : Bytes) {v : Value} {n : ℕ}
    → ((m : ℕ) → canonical_value_bytes (value m) ≡ tag ∷ to_le_bytes k m)
    → ((m : ℕ) → m < 256 ^ k → IsValue (value m))
    → All IsByte rest
    → (read_number k rest >>= with_size value (suc k)) ≡ ok (v, n)
    → Reads (tag ∷ rest) v n
number_Reads k tag value rest code valid small h =
    let (m, e, r) = bind_ok (read_number k rest) (with_size value (suc k)) h in
    let (big, bound, same) = read_number_ok k rest e small in
    same_result r (fixed k tag rest (to_le_bytes k m) (value m) big same (code m) (valid m bound))

array_Reads :
    (k tag : ℕ) (value : Bytes → Value) (rest : Bytes) {v : Value} {n : ℕ}
    → ((a : Bytes) → canonical_value_bytes (value a) ≡ tag ∷ a)
    → ((a : Bytes) → length a ≡ k → IsValue (value a))
    → (read_array k rest >>= with_size value (suc k)) ≡ ok (v, n)
    → Reads (tag ∷ rest) v n
array_Reads k tag value rest code valid h =
    let (a, e, r) = bind_ok (read_array k rest) (with_size value (suc k)) h in
    let (big, size, same) = read_array_ok k rest e in
    same_result r (fixed k tag rest a (value a) big same (code a) (valid a size))

module _ (rest : Bytes) (small : All IsByte rest) {v : Value} {n : ℕ} where
  double_Reads : (read_number 8 rest >>= non_nan) ≡ ok (v, n) → Reads (4 ∷ rest) v n
  unfolding canonical_value_bytes
  double_Reads h =
      let (f, e, h2) = bind_ok (read_number 8 rest) non_nan h in
      let (big, bound, same) = read_number_ok 8 rest e small in
      elim (if-cases (is_nan f) h2) [
        | inl (_, bad) ↦ cc
        | inr (fine, h3) ↦ same_result h3 (record {
          within = omega arith;
          value = (bound, fine);
          same = λ other.
              ap (λ g. 4 ∷ to_le_bytes 8 g) (plus_zero_other f other) ∙ ap (λ r. 4 ∷ r) same;
          size = ap suc (length-to_le_bytes 8 (plus_zero f));
        })
      ]

  pub at : {tag k : ℕ} → (tag == k) ≡ true → Reads (k ∷ rest) v n → Reads (tag ∷ rest) v n
  at {tag} {k} e r = rw ((==_iff tag k).0 e) r

  later_fixed_ok :
      (tag : ℕ)
      → (if tag == 0x07
          then read_array 16 rest >>= with_size uuid 17
          else if tag == 0x09
          then read_array 32 rest >>= with_size ref 33
          else if tag == 0x0A
          then read_number 16 rest >>= with_size big_int 17
          else if tag == 0x0B
          then read_number 16 rest >>= with_size big_dec 17
          else err non_canonical_chunk)
        ≡ ok (v, n)
      → Reads (tag ∷ rest) v n
  unfolding canonical_value_bytes
  later_fixed_ok tag h = elim (if-cases (tag == 0x07) h) [
    | inl (e, h) ↦ at e (array_Reads 16 7 uuid rest (λ a. refl) (λ a b. b) h)
    | inr (_, h) ↦ elim (if-cases (tag == 0x09) h) [
      | inl (e, h) ↦ at e (array_Reads 32 9 ref rest (λ a. refl) (λ a b. b) h)
      | inr (_, h) ↦ elim (if-cases (tag == 0x0A) h) [
        | inl (e, h) ↦ at e (number_Reads 16 10 big_int rest (λ m. refl) (λ m b. b) small h)
        | inr (_, h) ↦ elim (if-cases (tag == 0x0B) h) [
          | inl (e, h) ↦ at e (number_Reads 16 11 big_dec rest (λ m. refl) (λ m b. b) small h)
          | inr (_, bad) ↦ cc
        ]
      ]
    ]
  ]

  pub parse_fixed_value_ok :
      (tag : ℕ) → parse_fixed_value tag rest ≡ ok (v, n) → Reads (tag ∷ rest) v n
  unfolding canonical_value_bytes
  parse_fixed_value_ok tag h = elim (if-cases (tag == 0x03) h) [
    | inl (e, h) ↦ at e (number_Reads 8 3 long rest (λ m. refl) (λ m b. b) small h)
    | inr (_, h) ↦ elim (if-cases (tag == 0x04) h) [
      | inl (e, h) ↦ at e (double_Reads h)
      | inr (_, h) ↦ elim (if-cases (tag == 0x05) h) [
        | inl (e, h) ↦ at e (bool_Reads rest h)
        | inr (_, h) ↦ elim (if-cases (tag == 0x06) h) [
          | inl (e, h) ↦ at e (number_Reads 8 6 instant rest (λ m. refl) (λ m b. b) small h)
          | inr (_, h) ↦ later_fixed_ok tag h
        ]
      ]
    ]
  ]
