-- ===== src/Db/Backend.antt =====
-- The start on a storage backend (ferratomic-core/src/storage/recovery.rs, INV-FERR-024). What the
-- backend gives, and what loading its checkpoint gives, stand in `Backend`.
use ferratomic.Prelude.{ℕ, ltb, Bool, true, false, Option, none, some, List, if◌then◌else◌}
use ferratomic.Prelude.Bytes.{Bytes}
use ferratomic.Prelude.Results.{Result, ok, err}
use ferratomic.Store.Evolution.{Visit}
use ferratomic.Store.Merge.{Parts, Store}
use ferratomic.Store.Genesis
use ferratomic.Wal.Frame.{WalEntry}
use ferratomic.Wal.State.{WalError, wal_read, recover_wal_from_reader}
use ferratomic.Db.Wire.{WireDatom}
use ferratomic.Db.State.{DbError, wal_error, checkpoint_corrupted, build}
use ferratomic.Db.Recover.{replay_entries}
use ferratomic.Db.ColdStart.{
  RecoveryLevel, checkpoint_plus_wal, checkpoint_only, wal_only, genesis, ColdStartResult,
}

-- A reader of the log: whether it can be read to its end, and the bytes
abbrev pub Reader : Type 0
Reader = Bool × Bytes

abbrev pub is_wal_read : DbError → Bool
is_wal_read (wal_error wal_read) = true
is_wal_read e = false

abbrev pub is_corrupted : DbError → Bool
is_corrupted checkpoint_corrupted = true
is_corrupted e = false

abbrev pub is_either : DbError → Bool
is_either checkpoint_corrupted = true
is_either e = is_wal_read e

-- The result, or what follows where the error is one of those that are passed over; `none` where
-- the parsing of the log ran out of fuel
abbrev pub unless {ℓ} :
    {A : Type ℓ}
    → (DbError → Bool)
    → Option (Result DbError A)
    → Option (Result DbError A)
    → Option (Result DbError A)
unless skips none next = none
unless skips (some (ok a)) next = some (ok a)
unless skips (some (err e)) next = if skips e then next else some (err e)

module _ (p : Parts) where
  -- The directories, and the files that exist
  pub record Backend : Type 0 where
    pub create_dirs : Result DbError (Unit {0})
    pub checkpoint : Option (Result DbError (Store p))
    pub wal : Option (Result DbError Reader)

  module _ (visit : Visit) (deserialize : Bytes → Option (List WireDatom)) where
    -- `Database::from_store`
    abbrev pub from_store :
        RecoveryLevel
        → Result DbError (Store p)
        → Result DbError (ColdStartResult p visit deserialize)
    from_store level (err e) = err e
    from_store level (ok store) = ok (record { database = build p store none; level = level })

    abbrev pub replay_read :
        RecoveryLevel
        → (ℕ → Bool)
        → Store p
        → Option (Result WalError (List WalEntry))
        → Option (Result DbError (ColdStartResult p visit deserialize))
    replay_read level keep store none = none
    replay_read level keep store (some (err e)) = some (err (wal_error e))
    replay_read level keep store (some (ok entries)) =
        some (from_store level (replay_entries p visit deserialize keep entries store))

    abbrev pub replay_reader :
        RecoveryLevel
        → (ℕ → Bool)
        → Store p
        → Result DbError Reader
        → Option (Result DbError (ColdStartResult p visit deserialize))
    replay_reader level keep store (err e) = some (err e)
    replay_reader level keep store (ok (readable, content)) =
        replay_read level keep store (recover_wal_from_reader readable content)

    unfoldable pub recover_checkpoint_plus_wal :
        Result DbError (Store p)
        → Result DbError Reader
        → Option (Result DbError (ColdStartResult p visit deserialize))
    recover_checkpoint_plus_wal (err e) reader = some (err e)
    recover_checkpoint_plus_wal (ok store) reader =
        replay_reader checkpoint_plus_wal (ltb store.epoch) store reader

    unfoldable pub recover_checkpoint_only :
        Result DbError (Store p) → Result DbError (ColdStartResult p visit deserialize)
    recover_checkpoint_only checkpoint = from_store checkpoint_only checkpoint

    unfoldable pub recover_wal_only :
        Result DbError Reader → Option (Result DbError (ColdStartResult p visit deserialize))
    recover_wal_only reader = replay_reader wal_only (λ epoch. true) (Genesis.genesis p) reader

    abbrev pub start_genesis : Option (Result DbError (ColdStartResult p visit deserialize))
    start_genesis =
        some (ok (record { database = build p (Genesis.genesis p) none; level = genesis }))

    abbrev pub start_from :
        Option (Result DbError (Store p))
        → Option (Result DbError Reader)
        → Option (Result DbError (ColdStartResult p visit deserialize))
    start_from none none = start_genesis
    start_from none (some reader) = unless is_wal_read (recover_wal_only reader) start_genesis
    start_from (some checkpoint) none =
        unless is_corrupted (some (recover_checkpoint_only checkpoint)) start_genesis
    start_from (some checkpoint) (some reader) =
        unless is_either (recover_checkpoint_plus_wal checkpoint reader)
          (unless is_wal_read (recover_wal_only reader) start_genesis)

    abbrev pub with_dirs :
        Backend
        → Result DbError (Unit {0})
        → Option (Result DbError (ColdStartResult p visit deserialize))
    with_dirs backend (err e) = some (err e)
    with_dirs backend (ok u) = start_from backend.checkpoint backend.wal

    unfoldable pub cold_start_with_backend :
        Backend → Option (Result DbError (ColdStartResult p visit deserialize))
    cold_start_with_backend backend = with_dirs backend backend.create_dirs
