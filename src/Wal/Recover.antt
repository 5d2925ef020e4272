-- ===== src/Wal/Recover.antt =====
-- Recovery after a crash (INV-FERR-008, INV-FERR-014).
use ferratomic.Prelude.{
  ℕ, ◌≤◌, ◌≡◌, refl, sym, ap, ◌∙◌, inl, inr, none, some, List, [], ◌∷◌, ◌++◌, length, append_assoc,
  append-nil, All, arith, take, take_all, ltb, Bool-cases,
}
use ferratomic.Prelude.Results.{ok}
use ferratomic.Prelude.Bytes.{Bytes, take_prefix}
use ferratomic.Wal.Frame.{WalEntry, parse_wal_frames_with_pos}
use ferratomic.Wal.Log.{frames}
use ferratomic.Wal.Parse.{Fits}
use ferratomic.Wal.Crash.{crash_keeps_synced}
use ferratomic.Wal.DedupBloom
use ferratomic.Wal.State.{Wal, open_wal, recover, last_epoch}
use ferratomic.Wal.Durable.{IsLog, Ascending}

-- The log after a recovery that found `entries` in the first `last` bytes of the file.
recovered : Bytes → List WalEntry → ℕ → Wal
recovered content entries last = record {
  file = record {
    content = take last content;
    cursor = length (take last content);
    durable = take last content;
  };
  last_synced_epoch = last_epoch 0 entries;
  pending_epoch = last_epoch 0 entries;
  dedup_bloom = DedupBloom.new;
}

recover-open :
    (s : Bytes) (es : List WalEntry) (last : ℕ)
    → parse_wal_frames_with_pos s ≡ some (es, last)
    → recover none (open_wal s) ≡ some (recovered s es last, ok es)
unfolding recover open_wal recovered
recover-open s es last h = elim (Bool-cases (ltb last (length s))) [
  | inl e ↦ ground (arith, e, h)
  | inr e ↦ ground (arith, e, h, take_all last s)
]

All-front : (a b : List WalEntry) → All Fits (a ++ b) → All Fits a
All-front [] b h = tt
All-front (e ∷ a) b h = (h.0, All-front a b h.1)

Ascending-front : (n : ℕ) (a b : List WalEntry) → Ascending n (a ++ b) → Ascending n a
Ascending-front n [] b h = tt
Ascending-front n (e ∷ a) b h = (h.0, Ascending-front e.epoch a b h.1)

-- The recovered state is again a log, with all its entries synced.
recovered-IsLog :
    (s : Bytes) (es rest : List WalEntry) (torn : Bytes)
    → s ≡ frames es ++ torn
    → All Fits (es ++ rest)
    → Ascending 0 (es ++ rest)
    → IsLog (recovered s es (length (frames es))) es []
unfolding recovered
recovered-IsLog s es rest torn bytes fits asc =
    let cut : take (length (frames es)) s ≡ frames es =
      rw bytes (take_prefix (length (frames es)) (frames es) torn refl) in
    record {
      content = cut ∙ ap frames (sym (append-nil es));
      cursor = refl;
      durable = cut;
      fits = rw append-nil (All-front es rest fits);
      ascending = rw append-nil (Ascending-front 0 es rest asc);
      pending = ap (last_epoch 0) (sym (append-nil es));
    }

-- A crash leaves a front of the file that reaches at least to the last sync. Recovery then
-- succeeds, returns every synced entry and the first of the later ones, and leaves a log of these.
pub recover-IsLog :
    (w : Wal) (synced later : List WalEntry) (s t : Bytes)
    → IsLog w synced later
    → w.file.content ≡ s ++ t
    → length w.file.durable ≤ length s
    → (w' : Wal) × (kept lost : List WalEntry) × (later ≡ kept ++ lost)
      × (recover none (open_wal s) ≡ some (w', ok (synced ++ kept)))
      × IsLog w' (synced ++ kept) []
recover-IsLog w synced later s t h cut enough =
    let (kept, lost, torn, split, bytes, parsed, _) =
      crash_keeps_synced synced later s t h.fits (sym h.content ∙ cut)
        (omega (arith, ap {B = ℕ} length h.durable)) in
    let es : List WalEntry = synced ++ kept in
    let regroup : synced ++ later ≡ es ++ lost =
      ap (λ l. synced ++ l) split ∙ sym (append_assoc synced kept lost) in
    (
      recovered s es (length (frames es)),
      kept,
      lost,
      split,
      recover-open s es (length (frames es)) parsed,
      recovered-IsLog s es lost torn bytes (rw (← regroup) h.fits) (rw (← regroup) h.ascending),
    )
