-- ===== src/Wal/Frame.antt =====
-- The frame format: constants and CRC (mod.rs), building a frame (writer.rs), parsing (recover.rs).
use ferratomic.Prelude.{
  ℕ, zero, suc, ◌+◌, ◌-◌, ◌*◌, ◌/◌, ◌%◌, Option, none, some, List, [], ◌∷◌, ◌++◌, not, ltb, leb,
  ◌==◌, if◌then◌else◌, length,
}
use ferratomic.Prelude.Bytes.{Bytes, slice, to_le_bytes, from_le_bytes, bytes_eq}
use Prim.Native.Nat.{bit_xor}

-- b"FERR"
abbrev pub wal_magic : Bytes
wal_magic = 0x46 ∷ 0x45 ∷ 0x52 ∷ 0x52 ∷ []

abbrev pub wal_version : ℕ
wal_version = 1

-- magic (4), version (2), epoch (8), length (4)
abbrev pub header_size : ℕ
header_size = 18

abbrev pub crc_size : ℕ
crc_size = 4

abbrev pub min_frame_size : ℕ
min_frame_size = header_size + crc_size

abbrev pub max_payload_size : ℕ
max_payload_size = 256 * 1024 * 1024

pub record WalEntry : Type 0 where
  pub epoch : ℕ
  pub payload : Bytes

-- One round of the inner loop of `crc32_ieee`, and `rounds` of them.
crc_bit : ℕ → ℕ
crc_bit crc = if crc % 2 == 1 then bit_xor (crc / 2) 0xEDB8_8320 else crc / 2

crc_bits : ℕ → ℕ → ℕ
unfolding crc_bit
crc_bits zero crc = crc
crc_bits (suc rounds) crc = crc_bits rounds (crc_bit crc)

crc_loop : ℕ → Bytes → ℕ
unfolding crc_bits
crc_loop crc [] = crc
crc_loop crc (byte ∷ bytes) = crc_loop (crc_bits 8 (bit_xor crc byte)) bytes

-- `!crc` on a `u32`
unfoldable pub crc32_ieee : Bytes → ℕ
unfolding crc_loop
crc32_ieee bytes = 0xFFFF_FFFF - crc_loop 0xFFFF_FFFF bytes

-- What the CRC covers: magic, version, epoch, length and payload.
abbrev pub frame_data : ℕ → Bytes → Bytes
frame_data epoch payload =
    wal_magic
    ++ (to_le_bytes 2 wal_version
        ++ (to_le_bytes 8 epoch ++ (to_le_bytes 4 (length payload) ++ payload)))

-- The bytes that `write_frame` hands to the file.
unfoldable pub frame : WalEntry → Bytes
frame e =
    let covered = frame_data e.epoch e.payload in covered ++ to_le_bytes 4 (crc32_ieee covered)

-- `try_parse_frame`. Its caller has checked that the header lies within the buffer, and the test of
-- `frame_end` guards the reads behind it, so that no slice is out of range.
unfoldable pub try_parse_frame : Bytes → ℕ → Option (WalEntry × ℕ)
try_parse_frame buf pos =
    let epoch = from_le_bytes (slice buf (pos + 6) (pos + 14)) in
    let payload_len = from_le_bytes (slice buf (pos + 14) (pos + 18)) in
    let payload_end = pos + (header_size + payload_len) in
    let frame_end = pos + (header_size + payload_len + crc_size) in
    let stored_crc = from_le_bytes (slice buf payload_end frame_end) in
    if not (bytes_eq (slice buf (pos + 0) (pos + 4)) wal_magic)
    then none
    else if not (from_le_bytes (slice buf (pos + 4) (pos + 6)) == wal_version)
    then none
    else if ltb max_payload_size payload_len
    then none
    else if ltb (length buf) frame_end
    then none
    else if not (stored_crc == crc32_ieee (slice buf (pos + 0) payload_end))
    then none
    else some
        (record { epoch = epoch; payload = slice buf (pos + header_size) payload_end }, frame_end)

abbrev pub push_entry : WalEntry → Option (List WalEntry × ℕ) → Option (List WalEntry × ℕ)
push_entry e none = none
push_entry e (some (entries, last)) = some (e ∷ entries, last)

-- The loop of `parse_wal_frames_with_pos`; `none` means that the fuel ran out.
unfoldable pub parse_loop : ℕ → Bytes → ℕ → Option (List WalEntry × ℕ)
parse_loop zero buf pos = none
parse_loop (suc fuel) buf pos =
    if leb (pos + min_frame_size) (length buf)
    then (elim (try_parse_frame buf pos) [
      | none ↦ some ([], pos)
      | some (e, frame_end) ↦ push_entry e (parse_loop fuel buf frame_end)
    ])
    else some ([], pos)

-- The entries, and the offset past the last valid frame. Each round passes at least one byte.
unfoldable pub parse_wal_frames_with_pos : Bytes → Option (List WalEntry × ℕ)
unfolding parse_loop
parse_wal_frames_with_pos buf = parse_loop (suc (length buf)) buf 0
