-- ===== src/Wal/Parse.antt =====
-- Parsing one frame: what the writer built is read back, and what is cut off is refused.
use ferratomic.Prelude.{
  ℕ, ◌+◌, ◌^◌, ◌≤◌, ◌<◌, ◌≡◌, refl, sym, ap, ◌∙◌, true, Option, none, some, [], ◌++◌, not, ltb,
  ◌==◌, if◌then◌else◌, length, length-append, append_assoc, append-nil, arith,
}
use ferratomic.Prelude.Bytes.{
  Bytes, slice, to_le_bytes, from_le_bytes, bytes_eq, slice_past, length-to_le_bytes, slice_first,
  slice_second, slice_within, bytes_eq_refl, from_le_bytes-to_le_bytes,
}
use ferratomic.Wal.Frame.{
  wal_magic, wal_version, header_size, crc_size, max_payload_size, WalEntry, crc32_ieee, frame_data,
  frame, try_parse_frame,
}

-- What `write_frame` accepts: the fields fit, and the payload has at most 256 MiB.
pub record Fits (e : WalEntry) : Type 0 where
  pub epoch : e.epoch < 256 ^ 8
  pub payload : length e.payload ≤ max_payload_size

-- The parse of a frame at the start of the bytes, with its length.
unfoldable pub decode : Bytes → Option (WalEntry × ℕ)
decode buf =
    let epoch = from_le_bytes (slice buf 6 14) in
    let payload_len = from_le_bytes (slice buf 14 18) in
    let payload_end = header_size + payload_len in
    let frame_end = header_size + payload_len + crc_size in
    let stored_crc = from_le_bytes (slice buf payload_end frame_end) in
    if not (bytes_eq (slice buf 0 4) wal_magic)
    then none
    else if not (from_le_bytes (slice buf 4 6) == wal_version)
    then none
    else if ltb max_payload_size payload_len
    then none
    else if ltb (length buf) frame_end
    then none
    else if not (stored_crc == crc32_ieee (slice buf 0 payload_end))
    then none
    else some (record { epoch = epoch; payload = slice buf header_size payload_end }, frame_end)

abbrev pub relocate : ℕ → Option (WalEntry × ℕ) → Option (WalEntry × ℕ)
relocate pos none = none
relocate pos (some (e, n)) = some (e, pos + n)

ltb_add : (k a b : ℕ) → ltb (k + a) (k + b) ≡ ltb a b
ltb_add k a b = ground arith

-- Parsing at a position reads only what follows it.
pub try_parse_frame-decode :
    (pre s : Bytes) → try_parse_frame (pre ++ s) (length pre) ≡ relocate (length pre) (decode s)
unfolding try_parse_frame decode
try_parse_frame-decode pre s = simp (slice_past, length-append, ltb_add) (ground arith)

length-frame_data : (n : ℕ) (p : Bytes) → length (frame_data n p) ≡ header_size + length p
unfolding to_le_bytes
length-frame_data n p = omega arith

pub length-frame : (e : WalEntry) → length (frame e) ≡ header_size + length e.payload + crc_size
unfolding frame
length-frame e = rw length-append (
    omega (
      arith,
      length-frame_data e.epoch e.payload,
      length-to_le_bytes 4 (crc32_ieee (frame_data e.epoch e.payload)),
    ))

abbrev covered : WalEntry → Bytes
covered e = frame_data e.epoch e.payload

abbrev trailer : WalEntry → Bytes
trailer e = to_le_bytes 4 (crc32_ieee (covered e))

abbrev header : WalEntry → Bytes
header e =
    wal_magic
    ++ (to_le_bytes 2 wal_version ++ (to_le_bytes 8 e.epoch ++ to_le_bytes 4 (length e.payload)))

length-header : (e : WalEntry) → header_size ≡ length (header e)
unfolding to_le_bytes
length-header e = refl

length-covered : (e : WalEntry) → header_size + length e.payload ≡ length (covered e)
length-covered e = sym (length-frame_data e.epoch e.payload)

module _ (e : WalEntry) (post : Bytes) where
  frame_split : frame e ++ post ≡ covered e ++ (trailer e ++ post)
  unfolding frame
  frame_split = append_assoc (covered e) (trailer e) post

  slice_magic : slice (frame e ++ post) 0 4 ≡ wal_magic
  unfolding slice
  slice_magic = rw frame_split refl

  slice_version : slice (frame e ++ post) 4 6 ≡ to_le_bytes 2 wal_version
  unfolding slice to_le_bytes
  slice_version = rw frame_split refl

  slice_epoch : slice (frame e ++ post) 6 14 ≡ to_le_bytes 8 e.epoch
  unfolding slice to_le_bytes
  slice_epoch = rw frame_split refl

  slice-length : slice (frame e ++ post) 14 18 ≡ to_le_bytes 4 (length e.payload)
  unfolding slice to_le_bytes
  slice-length = rw frame_split refl

  header_split : frame e ++ post ≡ header e ++ (e.payload ++ (trailer e ++ post))
  header_split = frame_split ∙ simp append_assoc

  slice_payload : slice (frame e ++ post) header_size (header_size + length e.payload) ≡ e.payload
  slice_payload =
      rw header_split
        (slice_second (header e) e.payload (trailer e ++ post) header_size _ (length-header e) refl)

  slice-covered : slice (frame e ++ post) 0 (header_size + length e.payload) ≡ covered e
  slice-covered = rw frame_split (slice_first (covered e) (trailer e ++ post) _ (length-covered e))

  slice-trailer :
      slice
        (frame e ++ post)
        (header_size + length e.payload)
        (header_size + length e.payload + crc_size)
      ≡ trailer e
  slice-trailer = rw frame_split (
      slice_second (covered e) (trailer e) post _ _ (length-covered e)
        (rw (length-to_le_bytes 4 (crc32_ieee (covered e))) refl))

crc32-lt : (bytes : Bytes) → crc32_ieee bytes < 256 ^ 4
unfolding crc32_ieee
crc32-lt bytes = omega arith

module _ (e : WalEntry) (post : Bytes) (fits : Fits e) where
  read_magic : bytes_eq (slice (frame e ++ post) 0 4) wal_magic ≡ true
  read_magic = rw (slice_magic e post) (bytes_eq_refl wal_magic)

  read_version : from_le_bytes (slice (frame e ++ post) 4 6) ≡ wal_version
  read_version = rw (slice_version e post) (from_le_bytes-to_le_bytes 2 wal_version (omega arith))

  read_epoch : from_le_bytes (slice (frame e ++ post) 6 14) ≡ e.epoch
  read_epoch = rw (slice_epoch e post) (from_le_bytes-to_le_bytes 8 e.epoch fits.epoch)

  read_length : from_le_bytes (slice (frame e ++ post) 14 18) ≡ length e.payload
  read_length =
      rw (slice-length e post)
        (from_le_bytes-to_le_bytes 4 (length e.payload) (omega (arith, fits.payload)))

  read_crc :
      from_le_bytes (
        slice
          (frame e ++ post)
          (header_size + length e.payload)
          (header_size + length e.payload + crc_size))
      ≡ crc32_ieee (frame_data e.epoch e.payload)
  read_crc = rw (slice-trailer e post) (from_le_bytes-to_le_bytes 4 _ (crc32-lt (covered e)))

  -- A frame that the writer built is read back, whatever follows it.
  pub decode-frame : decode (frame e ++ post) ≡ some (e, length (frame e))
  unfolding decode
  decode-frame =
      simp
        (
          read_magic,
          read_version,
          read_epoch,
          read_length,
          read_crc,
          slice_payload e post,
          slice-covered e post,
          length-append,
          length-frame,
        )
        (ground (arith, fits.payload))

-- A frame that is cut off behind its header is refused.
pub decode_torn :
    (e : WalEntry) (s t : Bytes)
    → Fits e
    → frame e ≡ s ++ t
    → header_size + crc_size ≤ length s
    → 0 < length t
    → decode s ≡ none
unfolding decode
decode_torn e s t fits cut long more =
    let whole : length s + length t ≡ header_size + length e.payload + crc_size =
      omega (arith, length-frame e, ap {B = ℕ} length cut, length-append s t) in
    let inside : slice s 14 18 ≡ slice (frame e ++ []) 14 18 =
      sym (slice_within s t 14 18 (omega arith) (omega arith))
      ∙ ap (λ b. slice b 14 18) (sym cut ∙ sym (append-nil (frame e))) in
    let len : from_le_bytes (slice s 14 18) ≡ length e.payload =
      ap from_le_bytes inside ∙ read_length e [] fits in
    ground (arith, len, whole)
