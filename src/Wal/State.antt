-- ===== src/Wal/State.antt =====
-- The state of an open log and its operations (mod.rs, writer.rs, recover.rs). The file system is
-- outside the program: how its calls turn out is an argument of each operation.
use ferratomic.Prelude.{
  ℕ, ◌+◌, max, Bool, true, false, ◌&&◌, Option, none, some, List, [], ◌∷◌, ◌++◌, ltb, leb,
  if◌then◌else◌, length, take, drop,
}
use ferratomic.Prelude.Results.{Result, ok, err}
use ferratomic.Prelude.Bytes.{Bytes}
use ferratomic.Wal.Frame.{max_payload_size, WalEntry, frame, parse_wal_frames_with_pos}
use ferratomic.Wal.DedupBloom
use ferratomic.Wal.DedupBloom.{WalDedupBloom}

-- The errors of `FerraError` that the log returns, without their texts.
pub data WalError : Type 0 where
  invariant_violation wal_read wal_write : WalError

-- An open file: its content, the cursor, and the content that is known to be on the disk.
pub record File : Type 0 where
  pub content : Bytes
  pub cursor : ℕ
  pub durable : Bytes

pub record Wal : Type 0 where
  pub file : File
  pub last_synced_epoch : ℕ
  pub pending_epoch : ℕ
  pub dedup_bloom : WalDedupBloom

-- `write_all` either writes all bytes, or fails after the first `n` of them.
pub data Write : Type 0 where
  all : Write
  short : ℕ → Write

-- Where one of the file operations of `recover` fails.
pub data Fault : Type 0 where
  seek_start read set_len sync seek_end : Fault

-- Bytes are written at the cursor, over what is there.
unfoldable pub write_at : Bytes → File → File
write_at bytes f = record f {
  content = take f.cursor f.content ++ (bytes ++ drop (f.cursor + length bytes) f.content);
  cursor = f.cursor + length bytes;
}

-- `Wal::create` makes an empty file, and `Wal::open` opens the file as it is; both start at its
-- first byte.
unfoldable pub create : Wal
create = record {
  file = record { content = []; cursor = 0; durable = [] };
  last_synced_epoch = 0;
  pending_epoch = 0;
  dedup_bloom = DedupBloom.new;
}

unfoldable pub open_wal : Bytes → Wal
open_wal content = record {
  file = record { content = content; cursor = 0; durable = content };
  last_synced_epoch = 0;
  pending_epoch = 0;
  dedup_bloom = DedupBloom.new;
}

write_bytes : Write → ℕ → Bytes → Wal → Wal × Result WalError (Unit {0})
write_bytes all epoch bytes w =
    (record w { file = write_at bytes w.file; pending_epoch = max w.pending_epoch epoch }, ok tt)
write_bytes (short n) epoch bytes w =
    (record w { file = write_at (take n bytes) w.file }, err wal_write)

-- `append_raw`, that is `write_frame`.
unfoldable pub append_raw : Write → ℕ → Bytes → Wal → Wal × Result WalError (Unit {0})
unfolding write_bytes
append_raw outcome epoch payload w =
    if leb epoch w.pending_epoch && ltb 0 w.pending_epoch
    then (w, err invariant_violation)
    else if ltb max_payload_size (length payload)
    then (w, err wal_write)
    else write_bytes outcome epoch (frame (record { epoch = epoch; payload = payload })) w

-- `fsync`; the argument says whether the call of the file succeeds.
unfoldable pub fsync : Bool → Wal → Wal × Result WalError (Unit {0})
fsync false w = (w, err wal_write)
fsync true w = (
  record w {
    file = record (w.file) { durable = w.file.content };
    last_synced_epoch = max w.last_synced_epoch w.pending_epoch;
  },
  ok tt,
)

abbrev pub last_epoch : ℕ → List WalEntry → ℕ
last_epoch epoch [] = epoch
last_epoch epoch (e ∷ es) = last_epoch e.epoch es

abbrev truncated : ℕ → File → File
truncated n f = record f { content = take n f.content }

-- The end of `recover`, after the truncation.
abbrev settle : Option Fault → List WalEntry → Wal → Wal × Result WalError (List WalEntry)
settle (some seek_end) entries w = (record w { pending_epoch = w.last_synced_epoch }, err wal_write)
settle _ entries w = (
  record w {
    file = record (w.file) { cursor = length w.file.content };
    pending_epoch = w.last_synced_epoch;
  },
  ok entries,
)

-- The truncation, made if there are bytes behind the last valid frame.
abbrev truncate : Option Fault → ℕ → List WalEntry → Wal → Wal × Result WalError (List WalEntry)
truncate (some set_len) last entries w = (w, err wal_write)
truncate (some sync) last entries w = (record w { file = truncated last w.file }, err wal_write)
truncate fault last entries w =
    let cut : File = truncated last w.file in
    settle fault entries (record w { file = record cut { durable = cut.content } })

-- `none` means that parsing ran out of fuel.
abbrev replay :
    Option Fault → Option (List WalEntry × ℕ) → Wal → Option (Wal × Result WalError (List WalEntry))
replay fault none w = none
replay fault (some (entries, last)) w =
    let w' : Wal = record w {
      file = record (w.file) { cursor = length w.file.content };
      last_synced_epoch = last_epoch w.last_synced_epoch entries;
    } in
    some (
      if ltb last (length w.file.content)
      then truncate fault last entries w'
      else settle fault entries w')

unfoldable pub recover : Option Fault → Wal → Option (Wal × Result WalError (List WalEntry))
recover (some seek_start) w = some (w, err wal_read)
recover (some read) w = some (record w { file = record (w.file) { cursor = 0 } }, err wal_read)
recover fault w = replay fault (parse_wal_frames_with_pos w.file.content) w

abbrev only_entries : Option (List WalEntry × ℕ) → Option (Result WalError (List WalEntry))
only_entries none = none
only_entries (some (entries, last)) = some (ok entries)

-- Recovery from what a reader gives; the argument says whether the read succeeds.
unfoldable pub recover_wal_from_reader : Bool → Bytes → Option (Result WalError (List WalEntry))
recover_wal_from_reader false buf = some (err wal_read)
recover_wal_from_reader true buf = only_entries (parse_wal_frames_with_pos buf)
