-- ===== src/Wal/Durable.antt =====
-- What appends and syncs keep true of a log (INV-FERR-007, INV-FERR-008).
use ferratomic.Prelude.{
  ℕ, ◌^◌, ◌<◌, ◌≤◌, ◌≡◌, refl, sym, ap, ◌∙◌, List, [], ◌∷◌, ◌++◌, length, length-append,
  append_assoc, append-nil, All, All-append, arith, true, false,
}
use ferratomic.Prelude.Results.{ok, err}
use ferratomic.Prelude.Bytes.{Bytes}
use ferratomic.Wal.Frame.{WalEntry, frame}
use ferratomic.Wal.Parse.{Fits}
use ferratomic.Wal.Log.{frames}
use ferratomic.Wal.Crash.{frames-append}
use ferratomic.Wal.State.{WalError, Wal, all, create, append_raw, fsync, last_epoch}
use ferratomic.Wal.Append.{write_at_end, append_inv, append_inv_size, append_state}

-- The epochs rise strictly, from above `n`.
abbrev pub Ascending : ℕ → List WalEntry → Type 0
Ascending n [] = Unit
Ascending n (e ∷ es) = (n < e.epoch) × Ascending e.epoch es

pub record IsLog (w : Wal) (synced later : List WalEntry) : Type 0 where
  pub content : w.file.content ≡ frames (synced ++ later)
  pub cursor : w.file.cursor ≡ length w.file.content
  pub durable : w.file.durable ≡ frames synced
  pub fits : All Fits (synced ++ later)
  pub ascending : Ascending 0 (synced ++ later)
  pub pending : w.pending_epoch ≡ last_epoch 0 (synced ++ later)

Ascending-snoc :
    (m : ℕ) (es : List WalEntry) (e : WalEntry)
    → Ascending m es
    → last_epoch m es < e.epoch
    → Ascending m (es ++ e ∷ [])
Ascending-snoc m [] e a h = (h, tt)
Ascending-snoc m (d ∷ es) e a h = (a.0, Ascending-snoc d.epoch es e a.1 h)

pub last_epoch-snoc :
    (m : ℕ) (es : List WalEntry) (e : WalEntry) → last_epoch m (es ++ e ∷ []) ≡ e.epoch
last_epoch-snoc m [] e = refl
last_epoch-snoc m (d ∷ es) e = last_epoch-snoc d.epoch es e

last_epoch-rises : (n : ℕ) (es : List WalEntry) → Ascending n es → n ≤ last_epoch n es
last_epoch-rises n [] a = omega arith
last_epoch-rises n (e ∷ es) a = omega (arith, a.0, last_epoch-rises e.epoch es a.1)

-- The last epoch is not below any before it.
pub last_epoch-behind :
    (n : ℕ) (es : List WalEntry) (e : WalEntry) (fs : List WalEntry)
    → Ascending n (es ++ e ∷ fs)
    → e.epoch ≤ last_epoch n (es ++ e ∷ fs)
last_epoch-behind n [] e fs a = last_epoch-rises e.epoch fs a.1
last_epoch-behind n (d ∷ es) e fs a = last_epoch-behind d.epoch es e fs a.1

frames_one : (e : WalEntry) → frames (e ∷ []) ≡ frame e
unfolding frames
frames_one e = append-nil (frame e)

pub append-IsLog :
    (w : Wal) (synced later : List WalEntry) (n : ℕ) (p : Bytes)
    → IsLog w synced later
    → 0 < n
    → n < 256 ^ 8
    → (append_raw all n p w).1 ≡ ok tt
    → IsLog (append_raw all n p w).0 synced (later ++ record { epoch = n; payload = p } ∷ [])
append-IsLog w synced later n p h pos fit r =
    let e : WalEntry = record { epoch = n; payload = p } in
    let assoc : synced ++ (later ++ e ∷ []) ≡ (synced ++ later) ++ e ∷ [] =
      sym (append_assoc synced later (e ∷ [])) in
    rw (append_state n p w r, write_at_end (frame e) w.file h.cursor)
      (record {
        content =
            ap (λ c. c ++ frame e) h.content
            ∙ ap (λ f. frames (synced ++ later) ++ f) (sym (frames_one e))
            ∙ sym (frames-append (synced ++ later) (e ∷ []))
            ∙ ap frames (sym assoc);
        cursor = omega (arith, h.cursor, length-append w.file.content (frame e));
        durable = h.durable;
        fits = rw assoc (
            All-append Fits (synced ++ later) (e ∷ []) h.fits
              (record { epoch = fit; payload = append_inv_size n p w r }, tt));
        ascending = rw assoc (
            Ascending-snoc 0 (synced ++ later) e h.ascending
              (omega (arith, append_inv n p w r, h.pending)));
        pending = rw (assoc, last_epoch-snoc) (omega (arith, append_inv n p w r, h.pending));
      })

pub refused :
    (n : ℕ) (p : Bytes) (w : Wal) {x : WalError}
    → (append_raw all n p w).1 ≡ err x
    → (append_raw all n p w).0 ≡ w
unfolding append_raw
refused n p w r = ground arith

pub IsLog-create : IsLog create [] []
unfolding create frames
IsLog-create = record {
  content = refl;
  cursor = refl;
  durable = refl;
  fits = tt;
  ascending = tt;
  pending = refl;
}

pub sync-IsLog :
    (w : Wal) (synced later : List WalEntry)
    → IsLog w synced later
    → IsLog (fsync true w).0 (synced ++ later) []
unfolding fsync
sync-IsLog w synced later h =
    let all_synced : (synced ++ later) ++ [] ≡ synced ++ later = append-nil (synced ++ later) in
    record {
      content = h.content ∙ ap frames (sym all_synced);
      cursor = h.cursor;
      durable = h.content;
      fits = rw all_synced h.fits;
      ascending = rw all_synced h.ascending;
      pending = h.pending ∙ ap (last_epoch 0) (sym all_synced);
    }

pub not_synced : (w : Wal) → (fsync false w).0 ≡ w
unfolding fsync
not_synced w = refl
