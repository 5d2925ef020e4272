-- ===== src/Db/ColdStart.antt =====
-- The start on a data directory (ferratomic-core/src/storage: mod.rs and recovery.rs). What loading
-- the checkpoint and bincode give is an argument; whether a file can be created is in `creates`.
use ferratomic.Prelude.{Bool, Option, none, some, List, if◌then◌else◌}
use ferratomic.Prelude.Bytes.{Bytes}
use ferratomic.Prelude.Results.{Result, ok, err}
use ferratomic.Store.Evolution.{Visit}
use ferratomic.Store.Merge.{Parts, Store}
use ferratomic.Db.Wire.{WireDatom}
use ferratomic.Db.State.{DbError, io_error, Database, build, genesis_with_wal, from_store_with_wal}
use ferratomic.Db.Recover.{recover_from_wal, recover_from_checkpoint}

pub data RecoveryLevel : Type 0 where
  checkpoint_plus_wal checkpoint_only wal_only genesis : RecoveryLevel

-- A path that succeeded, or the next one; `none` where the parsing of the log ran out of fuel
abbrev pub or_else {ℓ} : {A : Type ℓ} → Option (Option A) → Option (Option A) → Option (Option A)
or_else none next = none
or_else (some none) next = next
or_else (some (some a)) next = some (some a)

module _ (p : Parts) (visit : Visit) (deserialize : Bytes → Option (List WireDatom)) where
  pub record ColdStartResult : Type 0 where
    pub database : Database p
    pub level : RecoveryLevel

  -- `.ok()?`, and the level
  abbrev pub at_level :
      RecoveryLevel → Option (Result DbError (Database p)) → Option (Option ColdStartResult)
  at_level level none = none
  at_level level (some (err e)) = some none
  at_level level (some (ok db)) = some (some (record { database = db; level = level }))

  -- On a checkpoint that loads, or does not
  unfoldable pub try_checkpoint_plus_wal :
      Option (Store p) → Bytes → Option (Option ColdStartResult)
  try_checkpoint_plus_wal none content = some none
  try_checkpoint_plus_wal (some store) content =
      at_level checkpoint_plus_wal (recover_from_checkpoint p visit deserialize store content)

  unfoldable pub try_checkpoint_only : Bool → Option (Store p) → Option ColdStartResult
  try_checkpoint_only creates none = none
  try_checkpoint_only creates (some store) = some (record {
    database = if creates then from_store_with_wal p store else build p store none;
    level = checkpoint_only;
  })

  unfoldable pub try_wal_only : Bytes → Option (Option ColdStartResult)
  try_wal_only content = at_level wal_only (recover_from_wal p visit deserialize content)

  -- The last path: a new log, which cannot be created where there is one
  abbrev pub start_empty : Bool → Option Bytes → Result DbError ColdStartResult
  start_empty creates (some content) = err io_error
  start_empty creates none =
      if creates
      then ok (record { database = genesis_with_wal p; level = genesis })
      else err io_error

  abbrev pub or_empty :
      Bool
      → Option Bytes
      → Option (Option ColdStartResult)
      → Option (Result DbError ColdStartResult)
  or_empty creates log none = none
  or_empty creates log (some none) = some (start_empty creates log)
  or_empty creates log (some (some result)) = some (ok result)

  -- The log, if there is one, by itself
  abbrev pub from_log : Option Bytes → Option (Option ColdStartResult)
  from_log none = some none
  from_log (some content) = try_wal_only content

  abbrev pub from_files :
      Bool → Option (Option (Store p)) → Option Bytes → Option (Option ColdStartResult)
  from_files creates none log = from_log log
  from_files creates (some checkpoint) none = some (try_checkpoint_only creates checkpoint)
  from_files creates (some checkpoint) (some content) =
      or_else (try_checkpoint_plus_wal checkpoint content) (from_log (some content))

  -- On the files that are there: the checkpoint, as it loads, and the content of the log
  unfoldable pub cold_start :
      Bool → Option (Option (Store p)) → Option Bytes → Option (Result DbError ColdStartResult)
  cold_start creates checkpoint log = or_empty creates log (from_files creates checkpoint log)
