-- ===== src/Datom/NegativeZero.antt =====
-- The decoder takes bytes of -0.0, which the encoder never writes.
use ferratomic.Prelude.{◌≡◌, ◌≢◌, refl, sym, ap, ◌∙◌, ◌∷◌, ◌++◌, arith, length}
use ferratomic.Prelude.Results.{Result, ok}
use ferratomic.Prelude.Bytes.{Bytes, to_le_bytes, length-to_le_bytes}
use ferratomic.Datom.Types.{double, negative_zero, Datom, IsDatom}
use ferratomic.Datom.Encode.{canonical_value_bytes, canonical_bytes}
use ferratomic.Datom.Decode.{DecodeError, parse_canonical_value, from_canonical_bytes}
use ferratomic.Datom.Inverse.{value_of}
use ferratomic.Datom.Values.{normal, read_number-append}
use ferratomic.Datom.RoundTrip.{
  bytes_with, normal_datom, accepted, from_canonical_bytes-canonical_bytes,
}

-- The bytes of a value -0.0 as it is stored, without the addition of zero.
abbrev stored : Bytes
stored = 0x04 ∷ to_le_bytes 8 negative_zero

stored_reads :
    (s : Bytes) → parse_canonical_value (stored ++ s) ≡ ok (double negative_zero, length stored)
unfolding parse_canonical_value
stored_reads s = rw (read_number-append 8 negative_zero s (omega arith), length-to_le_bytes) refl

differs :
    (d : Datom)
    → d.value ≡ double 0
    → ◌≡◌ {A = Result DecodeError Datom}
        (ok (record d { value = double negative_zero }))
        (ok (normal_datom d))
    → ⊥
differs d zero_value e =
    let v : double negative_zero ≡ normal d.value = ap (λ x. x.value) (sym (value_of e)) in
    let u : double negative_zero ≡ double 0 = v ∙ ap normal zero_value in cc

-- A datom with the value 0.0 has other bytes beside its canonical ones that are accepted, and they
-- give the datom with -0.0 in place of 0.0, whose canonical bytes are the same.
pub negative_zero_accepted :
    (d : Datom)
    → IsDatom d
    → d.value ≡ double 0
    → (s : Bytes) × (s ≢ canonical_bytes d)
      × (from_canonical_bytes s ≡ ok (record d { value = double negative_zero }))
      × (canonical_bytes (record d { value = double negative_zero }) ≡ canonical_bytes d)
unfolding canonical_bytes canonical_value_bytes
negative_zero_accepted d valid zero_value =
    let found = accepted d valid stored (double negative_zero) stored_reads in
    let (own, _) = from_canonical_bytes-canonical_bytes d valid in
    (
      bytes_with stored d,
      (λ same. differs d zero_value (sym found ∙ ap from_canonical_bytes same ∙ own)),
      found,
      rw zero_value refl,
    )
