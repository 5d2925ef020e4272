-- ===== src/Examples/Logs.antt =====
-- The theorems about the log and its Bloom filter at concrete inputs, and runs of the operations.
use ferratomic.Prelude.{
  ℕ, ◌≤◌, ◌<◌, ◌≡◌, refl, inl, some, none, List, [], ◌∷◌, ◌++◌, arith, true, length-replicate,
  replicate, length, take, drop,
}
use ferratomic.Prelude.Results.{ok, err}
use ferratomic.Prelude.Bytes.{Bytes, to_le_bytes}
use ferratomic.Wal.Frame.{WalEntry, frame, crc32_ieee, parse_wal_frames_with_pos}
use ferratomic.Wal.Parse.{Fits}
use ferratomic.Wal.Log.{frames, parse-frames}
use ferratomic.Wal.State.{
  Wal, all, short, write_at, create, open_wal, append_raw, fsync, recover, recover_wal_from_reader,
  invariant_violation,
}
use ferratomic.Wal.Durable.{IsLog}
use ferratomic.Wal.Life.{Run, created, appends, syncs, Run-IsLog, recover_after_crash}
use ferratomic.Wal.DedupBloom
use ferratomic.Wal.DedupBloom.{probably_contains, insert, clear}
use ferratomic.Wal.DedupBloom.Members.{IsBloom, insert_each, no_false_negatives}
use ferratomic.Wal.ShortWrite.{short_write_hides_synced}

abbrev first : WalEntry
first = record { epoch = 1; payload = 7 ∷ 8 ∷ [] }

abbrev second : WalEntry
second = record { epoch = 2; payload = 9 ∷ [] }

first-Fits : Fits first
first-Fits = record { epoch = omega arith; payload = omega arith }

second-Fits : Fits second
second-Fits = record { epoch = omega arith; payload = omega arith }

-- A log of two entries, of which the first is synced.
abbrev one : Wal
one = (append_raw all 1 (7 ∷ 8 ∷ []) create).0

abbrev synced_one : Wal
synced_one = (fsync true one).0

abbrev two : Wal
two = (append_raw all 2 (9 ∷ []) synced_one).0

first_accepted : (append_raw all 1 (7 ∷ 8 ∷ []) create).1 ≡ ok tt
unfolding append_raw create
first_accepted = refl

second_accepted : (append_raw all 2 (9 ∷ []) synced_one).1 ≡ ok tt
unfolding append_raw create fsync
second_accepted = refl

second_refused : append_raw all 1 (9 ∷ []) one ≡ (one, err invariant_violation)
unfolding append_raw create
second_refused = refl

abbrev run : Run two (first ∷ []) (second ∷ [])
run =
    appends 2 (9 ∷ [])
      (syncs (appends 1 (7 ∷ 8 ∷ []) created (omega arith) (omega arith) first_accepted))
      (omega arith) (omega arith) second_accepted

-- The crash leaves half of the second frame.
two_content :
    two.file.content
    ≡ take 30 (frames (first ∷ second ∷ [])) ++ drop 30 (frames (first ∷ second ∷ []))
unfolding append_raw create fsync write_at frames frame crc32_ieee to_le_bytes
two_content = refl

two_durable : length two.file.durable ≤ length (take 30 (frames (first ∷ second ∷ [])))
unfolding append_raw create fsync write_at frames frame crc32_ieee to_le_bytes
two_durable = omega arith

recover_after_crash_example :
    (w : Wal) × (kept lost : List WalEntry) × (second ∷ [] ≡ kept ++ lost)
    × (recover none (open_wal (take 30 (frames (first ∷ second ∷ []))))
        ≡ some (w, ok (first ∷ kept)))
recover_after_crash_example =
    recover_after_crash (take 30 (frames (first ∷ second ∷ [])))
      (drop 30 (frames (first ∷ second ∷ []))) run two_content two_durable

abbrev torn_log : Bytes
torn_log = take 30 (frames (first ∷ second ∷ []))

torn_log_front : frames (first ∷ second ∷ []) ≡ torn_log ++ drop 30 (frames (first ∷ second ∷ []))
unfolding frames frame crc32_ieee to_le_bytes
torn_log_front = refl

torn_log_long : length (frames (first ∷ [])) ≤ length torn_log
unfolding frames frame crc32_ieee to_le_bytes
torn_log_long = omega arith

two-IsLog : IsLog two (first ∷ []) (second ∷ [])
two-IsLog = Run-IsLog run

third_accepted : (append_raw all 3 (5 ∷ []) (append_raw (short 2) 3 (4 ∷ []) two).0).1 ≡ ok tt
unfolding append_raw create fsync
third_accepted = refl

two_pending : two.pending_epoch < 3
unfolding append_raw create fsync
two_pending = omega arith

short_write_hides_synced_example :
    parse_wal_frames_with_pos
      (fsync true
        (append_raw all 3 (5 ∷ []) (append_raw (short 2) 3 (4 ∷ []) two).0).0).0.file.durable
    ≡ some (first ∷ second ∷ [], length (frames (first ∷ second ∷ [])))
short_write_hides_synced_example =
    short_write_hides_synced two (first ∷ []) (second ∷ []) 2 3 3 (4 ∷ []) (5 ∷ []) two-IsLog
      (omega arith) (omega arith) two_pending (omega arith) third_accepted

abbrev some_hash : Bytes
some_hash = replicate 32 0xA5

abbrev other_hash : Bytes
other_hash = replicate 32 0x3C

new-IsBloom : IsBloom DedupBloom.new
unfolding DedupBloom.new
new-IsBloom = length-replicate {A = ℕ} 8192 0

no_false_negatives_example :
    probably_contains (insert_each DedupBloom.new (some_hash ∷ other_hash ∷ [])) other_hash ≡ true
no_false_negatives_example =
    no_false_negatives DedupBloom.new (some_hash ∷ []) other_hash [] new-IsBloom

-- A reader that gives the torn log: the first entry is found.
torn_log_read :
    recover_wal_from_reader true (frames (first ∷ []) ++ 0x46 ∷ 0x45 ∷ []) ≡ some (ok (first ∷ []))
unfolding recover_wal_from_reader
torn_log_read =
    rw (parse-frames (first ∷ []) (0x46 ∷ 0x45 ∷ []) (first-Fits, tt) (inl (omega arith))) refl
