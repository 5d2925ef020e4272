-- ===== src/Db/Recover.antt =====
-- Recovery from the log, and from a checkpoint and the log (ferratomic-core/src/db/recover.rs). How
-- bincode reads a payload back is `deserialize`.
use ferratomic.Prelude.{ℕ, Bool, true, Option, none, some, List, [], ◌∷◌, map, ltb, if◌then◌else◌}
use ferratomic.Prelude.Bytes.{Bytes}
use ferratomic.Prelude.Results.{Result, ok, err}
use ferratomic.Store.Evolution.{ApplyError, Visit}
use ferratomic.Store.Merge.{Parts, Store}
use ferratomic.Store.Genesis.{genesis}
use ferratomic.Store.Apply.{replay_entry}
use ferratomic.Wal.Frame.{WalEntry}
use ferratomic.Wal.State.{WalError, wal_read, Wal, open_wal, recover}
use ferratomic.Db.Wire.{WireDatom, into_trusted}
use ferratomic.Db.State.{DbError, apply_error, wal_error, Database, build}

module _ (p : Parts) (visit : Visit) (deserialize : Bytes → Option (List WireDatom)) where
  abbrev pub and_then :
      (Store p → Result DbError (Store p))
      → Store p × Result ApplyError (Unit {0})
      → Result DbError (Store p)
  and_then go_on (s, err e) = err (apply_error e)
  and_then go_on (s, ok u) = go_on s

  -- The body of the loop for an entry, and the rounds after it
  abbrev pub replay_payload :
      ℕ
      → (Store p → Result DbError (Store p))
      → Option (List WireDatom)
      → Store p
      → Result DbError (Store p)
  replay_payload epoch go_on none s = err (wal_error wal_read)
  replay_payload epoch go_on (some wire_datoms) s =
      and_then go_on (replay_entry p visit epoch (map into_trusted wire_datoms) s)

  -- The loop over the entries, of which those are replayed whose epoch `keep` accepts
  unfoldable pub replay_entries : (ℕ → Bool) → List WalEntry → Store p → Result DbError (Store p)
  replay_entries keep [] s = ok s
  replay_entries keep (entry ∷ entries) s =
      let rest = replay_entries keep entries in
      if keep entry.epoch
      then replay_payload entry.epoch rest (deserialize entry.payload) s
      else rest s

  abbrev pub ready : Wal → Result DbError (Store p) → Result DbError (Database p)
  ready w (err e) = err e
  ready w (ok store) = ok (build p store (some w))

  -- `none` where the parsing of the log ran out of fuel
  abbrev pub replay_log :
      (ℕ → Bool)
      → Store p
      → Option (Wal × Result WalError (List WalEntry))
      → Option (Result DbError (Database p))
  replay_log keep s none = none
  replay_log keep s (some (w, err e)) = some (err (wal_error e))
  replay_log keep s (some (w, ok entries)) = some (ready w (replay_entries keep entries s))

  -- On a log with this content, all calls of the file succeeding
  unfoldable pub recover_from_wal : Bytes → Option (Result DbError (Database p))
  recover_from_wal content =
      replay_log (λ epoch. true) (genesis p) (recover none (open_wal content))

  -- `recover`, once the checkpoint is loaded
  unfoldable pub recover_from_checkpoint : Store p → Bytes → Option (Result DbError (Database p))
  recover_from_checkpoint store content =
      replay_log (ltb store.epoch) store (recover none (open_wal content))
