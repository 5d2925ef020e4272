-- ===== src/Examples/Datoms.antt =====
-- The theorems about canonical bytes at concrete datoms, and runs of the codec.
use ferratomic.Prelude.{
  ℕ, ◌≡◌, ◌≢◌, refl, [], ◌∷◌, ◌++◌, arith, true, false, replicate, All, Bool, ◌&&◌, ltb,
}
use ferratomic.Prelude.Results.{ok, err}
use ferratomic.Prelude.Bytes.{Bytes, slice, to_le_bytes, from_le_bytes}
use ferratomic.Datom.Utf8.{is_utf8}
use ferratomic.Datom.Types.{retract, Value, keyword, long, double, negative_zero, Datom, IsDatom}
use ferratomic.Datom.Encode.{canonical_bytes, canonical_value_bytes}
use ferratomic.Datom.Decode.{
  from_canonical_bytes, trailing_bytes, parse_entity, parse_attribute, parse_canonical_value,
  parse_tx, parse_op, read_number, read_sized,
}
use ferratomic.Datom.Inverse.{IsByte}
use ferratomic.Datom.RoundTrip.{from_canonical_bytes-canonical_bytes}
use ferratomic.Datom.Canonical.{canonical_bytes-from_canonical_bytes}

-- "a/b"
abbrev name : Bytes
name = 0x61 ∷ 0x2F ∷ 0x62 ∷ []

abbrev with_value : Value → Datom
with_value v = record {
  entity = replicate 32 7;
  attribute = name;
  value = v;
  tx = record { physical = 1000; logical = 3; node = replicate 16 1 };
  op = retract;
}

-- "é"
abbrev named : Datom
named = with_value (keyword (0xC3 ∷ 0xA9 ∷ []))

named-IsDatom : IsDatom named
unfolding is_utf8
named-IsDatom = record {
  entity = refl;
  attribute = omega arith;
  name = refl;
  value = (omega arith, refl);
  tx = record { physical = omega arith; logical = omega arith; node = refl };
}

-- Overlong forms, surrogates and a character that is cut off are refused.
utf8_cases :
    (is_utf8 (0xE2 ∷ 0x82 ∷ 0xAC ∷ 0x24 ∷ []) ≡ true)
    × (is_utf8 (0xC0 ∷ 0x80 ∷ []) ≡ false)
    × (is_utf8 (0xED ∷ 0xA0 ∷ 0x80 ∷ []) ≡ false)
    × (is_utf8 (0xF0 ∷ 0x9F ∷ 0x98 ∷ []) ≡ false)
unfolding is_utf8
utf8_cases = (refl, refl, refl, refl)

canonical_bytes_value :
    canonical_value_bytes (keyword (0xC3 ∷ 0xA9 ∷ [])) ≡ 1 ∷ 2 ∷ 0 ∷ 0xC3 ∷ 0xA9 ∷ []
unfolding canonical_value_bytes to_le_bytes
canonical_bytes_value = refl

from_canonical_bytes-canonical_bytes_example :
    (from_canonical_bytes (canonical_bytes named) ≡ ok named)
    × ((x : ℕ) (more : Bytes)
        → from_canonical_bytes (canonical_bytes named ++ x ∷ more) ≡ err trailing_bytes)
from_canonical_bytes-canonical_bytes_example =
    from_canonical_bytes-canonical_bytes named named-IsDatom

abbrev named_bytes : Bytes
named_bytes =
    replicate 32 7
    ++ (2 ∷ 0 ∷ 0x61 ∷ 0x62 ∷ [])
    ++ (3 ∷ 5 ∷ replicate 7 0)
    ++ (0xE8 ∷ 3 ∷ replicate 6 0)
    ++ (3 ∷ 0 ∷ 0 ∷ 0 ∷ replicate 16 1)
    ++ 1 ∷ []

abbrev read_datom : Datom
read_datom = record {
  entity = replicate 32 7;
  attribute = 0x61 ∷ 0x62 ∷ [];
  value = long 5;
  tx = record { physical = 1000; logical = 3; node = replicate 16 1 };
  op = retract;
}

named_bytes_read : from_canonical_bytes named_bytes ≡ ok read_datom
unfolding from_canonical_bytes parse_entity parse_attribute parse_canonical_value parse_tx parse_op
    read_number read_sized slice from_le_bytes is_utf8
named_bytes_read = refl

abbrev small : Bytes → Bool
small [] = true
small (b ∷ s) = ltb b 256 && small s

All-small : (s : Bytes) → small s ≡ true → All IsByte s
All-small [] h = tt
All-small (b ∷ s) h = ground (arith, All-small s)

named_bytes_small : All IsByte named_bytes
named_bytes_small = All-small named_bytes refl

canonical_bytes-from_canonical_bytes_example :
    IsDatom read_datom × (long 5 ≢ double negative_zero → canonical_bytes read_datom ≡ named_bytes)
canonical_bytes-from_canonical_bytes_example =
    canonical_bytes-from_canonical_bytes named_bytes read_datom named_bytes_small named_bytes_read

abbrev zero_datom : Datom
zero_datom = with_value (double 0)

zero_datom-IsDatom : IsDatom zero_datom
unfolding is_utf8
zero_datom-IsDatom = record {
  entity = refl;
  attribute = omega arith;
  name = refl;
  value = (omega arith, refl);
  tx = record { physical = omega arith; logical = omega arith; node = refl };
}
