-- ===== src/Db/Starts.antt =====
-- The two cold starts agree (ferratomic-core/src/storage/recovery.rs, INV-FERR-024).
use ferratomic.Prelude.{◌≡◌, ◌⊎◌, true, Option, none, some, List}
use ferratomic.Prelude.Bytes.{Bytes}
use ferratomic.Prelude.Results.{Result, ok, err}
use ferratomic.Store.Evolution.{Visit}
use ferratomic.Store.Merge.{Parts, Store}
use ferratomic.Store.Genesis
use ferratomic.Wal.State.{Wal}
use ferratomic.Db.Wire.{WireDatom}
use ferratomic.Db.State.{DbError, io_error, build}
use ferratomic.Db.Recover
use ferratomic.Db.Backend
use ferratomic.Db.ColdStart.{genesis, ColdStartResult}
use ferratomic.Db.Backend.{Reader, Backend}

-- What the file system's start has of a checkpoint
abbrev pub loaded {ℓ} : {A : Type ℓ} → Option (Result DbError A) → Option (Option A)
loaded none = none
loaded (some (err e)) = some none
loaded (some (ok a)) = some (some a)

-- A log that can be read
abbrev pub readable : Option Bytes → Option (Result DbError Reader)
readable none = none
readable (some content) = some (ok (true, content))

module _ (p : Parts) (visit : Visit) (deserialize : Bytes → Option (List WireDatom)) where
  abbrev Start : Type 0
  Start = ColdStartResult p visit deserialize

  -- The same level, and the same store
  abbrev pub SameStart : Start → Start → Type 0
  SameStart b f = (f.level ≡ b.level) × (f.database.current ≡ b.database.current)

  abbrev pub empty_start : Start
  empty_start = record { database = build p (Genesis.genesis p) none; level = genesis }

  -- A path of the backend's start and the same path of the file system's
  abbrev SamePath : Option (Result DbError Start) → Option (Option Start) → Type 0
  SamePath none y = ⊥
  SamePath (some (err e)) y = y ≡ some none
  SamePath (some (ok b)) y = (f : Start) × (y ≡ some (some f)) × SameStart b f

  -- Where the backend's start succeeds, that of the file system does the same; or there is a log,
  -- the former is empty, and the latter refused.
  abbrev pub Agrees :
      Option Bytes → Option (Result DbError Start) → Option (Result DbError Start) → Type 0
  Agrees log none y = ⊥
  Agrees log (some (err e)) y = Unit
  Agrees log (some (ok b)) y =
      ((f : Start) × (y ≡ some (ok f)) × SameStart b f)
      ⊎ ((content : Bytes) × (log ≡ some content)
          × SameStart b empty_start
          × (y ≡ some (err io_error)))
