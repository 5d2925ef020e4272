-- ===== src/Datom/Utf8.antt =====
-- `core::str::from_utf8`, of which the decoder uses whether it accepts the bytes.
use ferratomic.Prelude.{
  ℕ, zero, suc, Bool, true, false, ◌&&◌, Option, none, some, [], ◌∷◌, ltb, leb, ◌==◌, if◌then◌else◌,
}
use ferratomic.Prelude.Bytes.{Bytes}

-- What the first byte of a character asks for: the number of bytes that follow, and the range of the
-- first of them.
abbrev lead : ℕ → Option (ℕ × (ℕ × ℕ))
lead b =
    if ltb b 0x80
    then some (0, (0x80, 0xBF))
    else if ltb b 0xC2
    then none
    else if ltb b 0xE0
    then some (1, (0x80, 0xBF))
    else if b == 0xE0
    then some (2, (0xA0, 0xBF))
    else if b == 0xED
    then some (2, (0x80, 0x9F))
    else if ltb b 0xF0
    then some (2, (0x80, 0xBF))
    else if b == 0xF0
    then some (3, (0x90, 0xBF))
    else if ltb b 0xF4
    then some (3, (0x80, 0xBF))
    else if b == 0xF4
    then some (3, (0x80, 0x8F))
    else none

utf8_from : ℕ → ℕ × ℕ → Bytes → Bool
utf8_from zero range [] = true
utf8_from (suc n) range [] = false
utf8_from zero range (b ∷ s) = elim (lead b) [ none ↦ false | some (n, next) ↦ utf8_from n next s ]
utf8_from (suc n) range (b ∷ s) = leb range.0 b && (leb b range.1 && utf8_from n (0x80, 0xBF) s)

unfoldable pub is_utf8 : Bytes → Bool
unfolding utf8_from
is_utf8 s = utf8_from 0 (0x80, 0xBF) s
