-- ===== src/Db/Logged.antt =====
-- What writes to the log leave of it (ferratomic-core/src/db/transact.rs, write_wal).
use ferratomic.Prelude.{
  ℕ, suc, ◌^◌, ◌<◌, ◌≡◌, refl, sym, ap, ◌∙◌, inl, inr, Option, some, List, [], ◌∷◌, ◌++◌,
  append_assoc, append-nil, Option-cases, Bool-cases, true, arith,
}
use ferratomic.Prelude.Bytes.{Bytes}
use ferratomic.Prelude.Results.{Result, ok, err, step_cases}
use ferratomic.Datom.Types.{EntityId, Datom}
use ferratomic.Positional.MergeLaws.{IsCanonical}
use ferratomic.Store.Evolution.{Visit}
use ferratomic.Store.Merge.{Parts, Store, datoms}
use ferratomic.Store.Apply.{TxReceipt}
use ferratomic.Store.Recovery.{Transacted, done, next, Transacted-IsCanonical}
use ferratomic.Store.Reopened.{transact_epoch}
use ferratomic.Wal.Frame.{WalEntry}
use ferratomic.Wal.State.{WalError, Wal, all, append_raw, fsync}
use ferratomic.Wal.Append.{append_inv}
use ferratomic.Wal.Durable.{IsLog, last_epoch-behind, refused, append-IsLog, sync-IsLog}
use ferratomic.Db.State.{Calls, write_wal, write_then, write_each}
use ferratomic.Db.Entries.{IsFrames, IsFrames-append, first_frame}
use ferratomic.Db.History.{epoch-transact}

module _ (serialize : List Datom → Option Bytes) where
  -- The log behind `before` after the frames of `qs` were to be written: all of them are on the
  -- disk, or the first few are in the file, of which some are on the disk.
  abbrev pub Wrote :
      List WalEntry → List TxReceipt → Option Wal × Result WalError (Unit {0}) → Type 0
  Wrote before qs (x, ok u) =
      (log : Wal) × (es : List WalEntry) × (x ≡ some log)
      × IsLog log (before ++ es) []
      × IsFrames serialize es qs
  Wrote before qs (x, err e) =
      (log : Wal) × (es later : List WalEntry) × (front back : List TxReceipt) × (x ≡ some log)
      × IsLog log (before ++ es) later
      × (qs ≡ front ++ back)
      × IsFrames serialize (es ++ later) front

  -- A receipt whose frame is before those of `rs`
  prefixed :
      (before es : List WalEntry) (r : TxReceipt) (rs : List TxReceipt)
      (x : Option Wal × Result WalError (Unit {0}))
      → IsFrames serialize es (r ∷ [])
      → Wrote (before ++ es) rs x
      → Wrote before (r ∷ rs) x
  prefixed before es r rs (x, ok u) f (log, fs, same, is, g) = (
    log,
    es ++ fs,
    same,
    rw (← append_assoc before es fs) is,
    IsFrames-append serialize es fs (r ∷ []) rs f g,
  )
  prefixed before es r rs (x, err e) f (log, fs, later, front, back, same, is, split, g) = (
    log,
    es ++ fs,
    later,
    r ∷ front,
    back,
    same,
    rw (← append_assoc before es fs) is,
    ap (λ l. r ∷ l) split,
    rw (append_assoc es fs later) (IsFrames-append serialize es (fs ++ later) (r ∷ []) front f g),
  )

module _ (p : Parts) (from_content : Bytes → EntityId) (v w : Visit)
    (serialize : List Datom → Option Bytes) where
  -- While a transaction is in doubt, an append with its epoch is refused.
  append_blocked :
      (log : Wal) (before es later : List WalEntry) (d : TxReceipt) (doubt : List TxReceipt) (n : ℕ)
      (payload : Bytes)
      → IsLog log (before ++ es) later
      → IsFrames serialize (es ++ later) (d ∷ doubt)
      → 0 < n
      → n ≡ d.epoch
      → (append_raw all n payload log).1 ≡ ok tt
      → ⊥
  append_blocked log before es later d doubt n payload is f pos same a =
      let (e, fs, split, epoch) = first_frame serialize (es ++ later) d doubt f in
      let order : (before ++ es) ++ later ≡ before ++ e ∷ fs =
        append_assoc before es later ∙ ap (λ l. before ++ l) split in
      let ascending = rw order at is.ascending in
      let pending = rw order at is.pending in
      omega (
        arith,
        append_inv n payload log a,
        pending,
        last_epoch-behind 0 before e fs ascending,
        epoch,
        pos,
        same,
      )

  -- Then the log stays as it is.
  pub write_blocked :
      (calls : Calls) (log : Wal) (before es later : List WalEntry) (d : TxReceipt)
      (doubt : List TxReceipt) (n : ℕ) (ds : List Datom)
      → calls.write ≡ all
      → IsLog log (before ++ es) later
      → IsFrames serialize (es ++ later) (d ∷ doubt)
      → 0 < n
      → n ≡ d.epoch
      → (e : WalError) × (write_wal p v from_content serialize calls n ds (some log)
          ≡ (some log, err e))
  unfolding write_wal
  write_blocked calls log before es later d doubt n ds whole is f pos same =
      elim (Option-cases (serialize ds)) [
        | inl g ↦ rw g (_, refl)
        | inr (payload, g) ↦ elim (step_cases (append_raw all n payload log)) [
          | inl (log', x, a) ↦
              let kept : log' ≡ log =
                sym (ap (λ y. y.0) a) ∙ refused n payload log (ap (λ y. y.1) a) in
              rw (g, whole, a, kept) (_, refl)
          | inr (log', u, a) ↦
              absurd (
                append_blocked log before es later d doubt n payload is f pos same
                  (ap (λ y. y.1) a))
        ]
      ]

  pub write_wal-Wrote :
      (calls : Calls) (log : Wal) (before : List WalEntry) (r : TxReceipt)
      → calls.write ≡ all
      → IsLog log before []
      → 0 < r.epoch
      → r.epoch < 2 ^ 64
      → Wrote serialize before
          (r ∷ [])
          (write_wal p v from_content serialize calls r.epoch r.datoms (some log))
  unfolding write_wal fsync
  write_wal-Wrote calls log before r whole is pos small =
      let nothing : IsLog log (before ++ []) [] = rw (append-nil before) is in
      elim (Option-cases (serialize r.datoms)) [
        | inl g ↦ rw g (log, [], [], [], r ∷ [], refl, nothing, refl, tt)
        | inr (payload, g) ↦ elim (step_cases (append_raw all r.epoch payload log)) [
          | inl (log', x, a) ↦
              let kept : log' ≡ log =
                sym (ap (λ y. y.0) a) ∙ refused r.epoch payload log (ap (λ y. y.1) a) in
              rw (g, whole, a, kept) (log, [], [], [], r ∷ [], refl, nothing, refl, tt)
          | inr (log', u, a) ↦
              let entry : WalEntry = record { epoch = r.epoch; payload = payload } in
              let longer : IsLog log' before (entry ∷ []) = rw (ap (λ y. y.0) a) at (
                append-IsLog log before [] r.epoch payload is pos (omega (arith, small))
                  (ap (λ y. y.1) a)) in
              let framed : IsFrames serialize (entry ∷ []) (r ∷ []) = (refl, g, tt) in
              elim (Bool-cases calls.sync) [
                | inl s ↦
                    rw (g, whole, a, s)
                      (
                        (fsync true log').0,
                        entry ∷ [],
                        refl,
                        sync-IsLog log' before (entry ∷ []) longer,
                        framed,
                      )
                | inr s ↦
                    rw (g, whole, a, s)
                      (
                        log',
                        [],
                        entry ∷ [],
                        r ∷ [],
                        [],
                        refl,
                        rw (append-nil before) longer,
                        refl,
                        framed,
                      )
              ]
        ]
      ]

  -- The frame of one receipt is written, and then those of the others.
  write_then-Wrote :
      (before : List WalEntry) (r : TxReceipt) (rs : List TxReceipt)
      (x : Option Wal × Result WalError (Unit {0}))
      (go_on : Option Wal → Option Wal × Result WalError (Unit {0}))
      → Wrote serialize before (r ∷ []) x
      → ((log : Wal) (es : List WalEntry)
          → IsLog log es []
          → Wrote serialize es rs (go_on (some log)))
      → Wrote serialize before (r ∷ rs) (write_then p v from_content serialize go_on x)
  write_then-Wrote before r rs (y, err e) go_on (log, es, later, front, back, same, is, split, f)
        then =
      (
        log,
        es,
        later,
        front,
        back ++ rs,
        same,
        is,
        ap (λ l. l ++ rs) split ∙ append_assoc front back rs,
        f,
      )
  write_then-Wrote before r rs (y, ok u) go_on (log, es, same, is, f) then =
      rw same (prefixed serialize before es r rs (go_on (some log)) f (then log (before ++ es) is))

  -- Writing the receipts of transactions that follow one another
  pub write_each-Wrote :
      (rs : List TxReceipt) (s u : Store p) (calls : ℕ → Calls) (log : Wal) (before : List WalEntry)
      → IsCanonical p.datom_order (datoms p s)
      → ((i : ℕ) → (calls i).write ≡ all)
      → IsLog log before []
      → Transacted p from_content v w s rs u
      → Wrote serialize before rs (write_each p v from_content serialize calls rs (some log))
  unfolding write_each
  write_each-Wrote rs s u calls log before h whole is done =
      (log, [], refl, rw (append-nil before) is, tt)
  write_each-Wrote rs s u calls log before h whole is
        (next {t = t} {rs = qs} tx ctx r e agree more) =
      let epoch = epoch-transact p from_content v w tx ctx s t r h e in
      let small = transact_epoch p v from_content tx ctx s t r e in
      let canonical =
        Transacted-IsCanonical p from_content v w (r ∷ []) s t h (next tx ctx r e agree done) in
      write_then-Wrote before r qs
        (write_wal p v from_content serialize (calls 0) r.epoch r.datoms (some log))
        (write_each p v from_content serialize (λ i. calls (suc i)) qs)
        (write_wal-Wrote (calls 0) log before r (whole 0) is (omega (arith, epoch))
          (omega (arith, epoch, small)))
        (λ log' es is'.
          write_each-Wrote qs t u (λ i. calls (suc i)) log' es canonical (λ i. whole (suc i)) is'
            more)
