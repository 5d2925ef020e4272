-- ===== src/Wal/Crash.antt =====
-- What a crash leaves of the log, and what parsing finds in it (INV-FERR-008, INV-FERR-014).
use ferratomic.Prelude.{
  ℕ, ◌+◌, ◌≤◌, ◌<◌, ◌≡◌, refl, sym, ap, ◌∙◌, inl, inr, some, List, [], ◌∷◌, ◌++◌, length,
  length-append, append_assoc, append_split, All, All-append, arith,
}
use ferratomic.Prelude.Bytes.{Bytes}
use ferratomic.Wal.Frame.{min_frame_size, WalEntry, frame, parse_wal_frames_with_pos}
use ferratomic.Wal.Parse.{Fits, decode_torn}
use ferratomic.Wal.Log.{frames, Stops, parse-frames}
use native.Mathlib.Decide.{dec_lt}

pub frames-append : (a b : List WalEntry) → frames (a ++ b) ≡ frames a ++ frames b
unfolding frames
frames-append [] b = refl
frames-append (e ∷ a) b =
    ap (λ r. frame e ++ r) (frames-append a b) ∙ sym (append_assoc (frame e) (frames a) (frames b))

-- The bytes hold the frames of the entries `kept`, and a part of the next frame behind them.
pub record Cut (es : List WalEntry) (s : Bytes) : Type 0 where
  pub kept : List WalEntry
  pub lost : List WalEntry
  pub torn : Bytes
  pub entries : es ≡ kept ++ lost
  pub bytes : s ≡ frames kept ++ torn
  pub stops : Stops torn
  pub partial :
      (e : WalEntry) (more : List WalEntry) → lost ≡ e ∷ more → length torn < length (frame e)

torn-Stops :
    (e : WalEntry) (s t : Bytes) → Fits e → frame e ≡ s ++ t → length s < length (frame e) → Stops s
torn-Stops e s t fits cut short = elim (dec_lt (length s) min_frame_size) [
  | yes h ↦ inl h
  | no h ↦ inr (
      decode_torn e s t fits cut (omega arith)
        (omega (arith, ap {B = ℕ} length cut, length-append s t)))
]

Cut-here :
    (e : WalEntry) (es : List WalEntry) (s : Bytes)
    → Stops s
    → length s < length (frame e)
    → Cut (e ∷ es) s
unfolding frames
Cut-here e es s stops short = record {
  kept = [];
  lost = e ∷ es;
  torn = s;
  entries = refl;
  bytes = refl;
  stops = stops;
  partial = λ d more same. ground (arith, short);
}

Cut-next :
    (e : WalEntry) (es : List WalEntry) (s u : Bytes) → s ≡ frame e ++ u → Cut es u → Cut (e ∷ es) s
unfolding frames
Cut-next e es s u h c = record {
  kept = e ∷ c.kept;
  lost = c.lost;
  torn = c.torn;
  entries = ap (λ l. e ∷ l) c.entries;
  bytes = h ∙ ap (λ r. frame e ++ r) c.bytes ∙ sym (append_assoc (frame e) (frames c.kept) c.torn);
  stops = c.stops;
  partial = c.partial;
}

-- Wherever the log is cut, whole frames and a torn one are left.
pub cut : (es : List WalEntry) (s t : Bytes) → All Fits es → frames es ≡ s ++ t → Cut es s
unfolding frames
cut [] [] t fits h = record {
  kept = [];
  lost = [];
  torn = [];
  entries = refl;
  bytes = refl;
  stops = inl (omega arith);
  partial = λ d more same. cc;
}
cut [] (x ∷ s) t fits h = cc
cut (e ∷ es) s t fits h = elim (dec_lt (length s) (length (frame e))) [
  | yes short ↦
      let (u, front, _) = append_split (frame e) (frames es) s t h (omega arith) in
      Cut-here e es s (torn-Stops e s u fits.0 front short) short
  | no long ↦
      let (u, front, back) = append_split s t (frame e) (frames es) (sym h) (omega arith) in
      Cut-next e es s u front (cut es u t fits.1 back)
]

All-front : (a b : List WalEntry) → All Fits (a ++ b) → All Fits a × All Fits b
All-front [] b h = (tt, h)
All-front (e ∷ a) b h = let (fa, fb) = All-front a b h.1 in ((h.0, fa), fb)

module _ (synced later : List WalEntry) (s u : Bytes) (front : s ≡ frames synced ++ u) where
  bytes_of_Cut : (c : Cut later u) → s ≡ frames (synced ++ c.kept) ++ c.torn
  bytes_of_Cut c =
      front
      ∙ ap (λ r. frames synced ++ r) c.bytes
      ∙ sym (append_assoc (frames synced) (frames c.kept) c.torn)
      ∙ ap (λ r. r ++ c.torn) (sym (frames-append synced c.kept))

  kept-Fits : All Fits synced → All Fits later → (c : Cut later u) → All Fits (synced ++ c.kept)
  kept-Fits fs fl c =
      All-append Fits synced c.kept fs (All-front c.kept c.lost (rw c.entries at fl)).0

-- A log is written, of entries that the writer accepts, and those of `synced` reach the disk whole;
-- a crash then leaves some front of the bytes. Parsing finds the synced entries and as many of the
-- later ones as are whole, in order, and the offset past their frames; the bytes are those frames
-- and a rest, which is shorter than the next frame.
pub crash_keeps_synced :
    (synced later : List WalEntry) (s t : Bytes)
    → All Fits (synced ++ later)
    → frames (synced ++ later) ≡ s ++ t
    → length (frames synced) ≤ length s
    → (kept lost : List WalEntry) × (torn : Bytes) × (later ≡ kept ++ lost)
      × (s ≡ frames (synced ++ kept) ++ torn)
      × (parse_wal_frames_with_pos s ≡ some (synced ++ kept, length (frames (synced ++ kept))))
      × ((e : WalEntry) (more : List WalEntry)
          → lost ≡ e ∷ more
          → length s < length (frames (synced ++ kept)) + length (frame e))
crash_keeps_synced synced later s t fits h enough =
    let whole : frames synced ++ frames later ≡ s ++ t = sym (frames-append synced later) ∙ h in
    let (u, front, back) = append_split s t (frames synced) (frames later) (sym whole) enough in
    let (fs, fl) = All-front synced later fits in
    let c : Cut later u = cut later u t fl back in
    let bytes : s ≡ frames (synced ++ c.kept) ++ c.torn = bytes_of_Cut synced later s u front c in
    (
      c.kept,
      c.lost,
      c.torn,
      c.entries,
      bytes,
      ap parse_wal_frames_with_pos bytes
          ∙ parse-frames (synced ++ c.kept) c.torn (kept-Fits synced later s u front fs fl c)
              c.stops,
      λ e more same. omega (
        arith,
        ap {B = ℕ} length bytes,
        length-append (frames (synced ++ c.kept)) c.torn,
        c.partial e more same,
      ),
    )
