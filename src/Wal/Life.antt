-- ===== src/Wal/Life.antt =====
-- The log over its life, crashes included (INV-FERR-007, INV-FERR-008, INV-FERR-014).
use ferratomic.Prelude.{ℕ, ◌^◌, ◌≤◌, ◌<◌, ◌≡◌, none, some, List, [], ◌∷◌, ◌++◌, length, true, false}
use ferratomic.Prelude.Results.{ok, err}
use ferratomic.Prelude.Bytes.{Bytes}
use ferratomic.Wal.Frame.{WalEntry}
use ferratomic.Wal.State.{WalError, Wal, all, create, open_wal, append_raw, fsync, recover}
use ferratomic.Wal.Durable.{IsLog, IsLog-create, append-IsLog, refused, sync-IsLog, not_synced}
use ferratomic.Wal.Recover.{recover-IsLog}

-- A log that was created and then used: `synced` are the entries before the last successful sync,
-- `later` those after it. Epochs are positive, and no write stops half way.
pub data Run : Wal → List WalEntry → List WalEntry → Type 0 where
  created : Run create [] []
  appends :
      {w : Wal} {synced later : List WalEntry} (n : ℕ) (p : Bytes)
      → Run w synced later
      → 0 < n
      → n < 256 ^ 8
      → (append_raw all n p w).1 ≡ ok tt
      → Run (append_raw all n p w).0 synced (later ++ record { epoch = n; payload = p } ∷ [])
  refuses :
      {w : Wal} {synced later : List WalEntry} {x : WalError} (n : ℕ) (p : Bytes)
      → Run w synced later
      → (append_raw all n p w).1 ≡ err x
      → Run (append_raw all n p w).0 synced later
  syncs :
      {w : Wal} {synced later : List WalEntry}
      → Run w synced later
      → Run (fsync true w).0 (synced ++ later) []
  fails_to_sync :
      {w : Wal} {synced later : List WalEntry}
      → Run w synced later
      → Run (fsync false w).0 synced later
  -- A crash leaves a front of the file that reaches to the last sync; it is opened and recovered.
  restarts :
      {w w' : Wal} {synced later entries : List WalEntry} (s t : Bytes)
      → Run w synced later
      → w.file.content ≡ s ++ t
      → length w.file.durable ≤ length s
      → recover none (open_wal s) ≡ some (w', ok entries)
      → Run w' entries []

restart-IsLog :
    (w w' : Wal) (synced later entries : List WalEntry) (s t : Bytes)
    → IsLog w synced later
    → w.file.content ≡ s ++ t
    → length w.file.durable ≤ length s
    → recover none (open_wal s) ≡ some (w', ok entries)
    → IsLog w' entries []
restart-IsLog w w' synced later entries s t h cut enough e =
    let (v, kept, _, _, r, log) = recover-IsLog w synced later s t h cut enough in
    let state : w' ≡ v = cc (r, e) in
    let found : entries ≡ synced ++ kept = cc (r, e) in rw (state, found) log

-- After any calls on a created log the file holds the frames of the accepted entries in order, the
-- part known to be on the disk those of the synced ones, and the epochs rise strictly.
pub Run-IsLog : {w : Wal} {synced later : List WalEntry} → Run w synced later → IsLog w synced later
Run-IsLog created = IsLog-create
Run-IsLog (appends {w = w} {synced = synced} {later = later} n p r pos fit h) =
    append-IsLog w synced later n p (Run-IsLog r) pos fit h
Run-IsLog (refuses {w = w} n p r h) = rw (refused n p w h) (Run-IsLog r)
Run-IsLog (syncs {w = w} {synced = synced} {later = later} r) =
    sync-IsLog w synced later (Run-IsLog r)
Run-IsLog (fails_to_sync {w = w} r) = rw (not_synced w) (Run-IsLog r)
Run-IsLog (restarts {w = w} {w' = w'} {synced = a} {later = b} {entries = es} s t r cut enough e) =
    restart-IsLog w w' a b es s t (Run-IsLog r) cut enough e

-- After any life of a created log (appends of positive epochs with whole writes, refusals, syncs that
-- may fail, earlier crashes), a crash that leaves a front of the file reaching to the last sync is
-- recovered from: `recover` succeeds, and returns every synced entry and a front of the later ones,
-- in the order in which they were appended.
pub recover_after_crash :
    {w : Wal} {synced later : List WalEntry} (s t : Bytes)
    → Run w synced later
    → w.file.content ≡ s ++ t
    → length w.file.durable ≤ length s
    → (w' : Wal) × (kept lost : List WalEntry) × (later ≡ kept ++ lost)
      × (recover none (open_wal s) ≡ some (w', ok (synced ++ kept)))
recover_after_crash {w} {synced} {later} s t r cut enough =
    let (w', kept, lost, split, e, _) = recover-IsLog w synced later s t (Run-IsLog r) cut enough in
    (w', kept, lost, split, e)
