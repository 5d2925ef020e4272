-- ===== src/Wal/ShortWrite.antt =====
-- A write that stops inside the magic bytes hides whatever is appended behind it.
use ferratomic.Prelude.{
  ℕ, zero, suc, ◌≤◌, ◌<◌, ◌≡◌, refl, sym, ap, ◌∙◌, inr, none, some, List, ◌++◌, length,
  length-append, append_assoc, arith, take, true,
}
use ferratomic.Prelude.Results.{ok, err}
use ferratomic.Prelude.Bytes.{Bytes, slice, bytes_eq}
use ferratomic.Wal.Frame.{max_payload_size, WalEntry, frame, parse_wal_frames_with_pos}
use ferratomic.Wal.Parse.{decode}
use ferratomic.Wal.Log.{frames, parse-frames}
use ferratomic.Wal.State.{wal_write, Wal, all, short, write_at, append_raw, fsync}
use ferratomic.Wal.Append.{write_at_end, append_state}
use ferratomic.Wal.Durable.{IsLog}

-- What a short write leaves, and the frame behind it, is no frame.
decode_shadowed :
    (n : ℕ) (d e : WalEntry) → 1 ≤ n → n ≤ 3 → decode (take n (frame d) ++ frame e) ≡ none
unfolding decode slice bytes_eq frame
decode_shadowed zero d e low high = absurd (omega arith)
decode_shadowed (suc zero) d e low high = refl
decode_shadowed (suc (suc zero)) d e low high = refl
decode_shadowed (suc (suc (suc zero))) d e low high = refl
decode_shadowed (suc (suc (suc (suc n)))) d e low high = absurd (omega arith)

short_state :
    (n m : ℕ) (p : Bytes) (w : Wal)
    → w.pending_epoch < m
    → length p ≤ max_payload_size
    → append_raw (short n) m p w ≡ (
      record w { file = write_at (take n (frame (record { epoch = m; payload = p }))) w.file },
      err wal_write,
    )
unfolding append_raw
short_state n m p w h k = ground arith

module _ (w : Wal) (end : w.file.cursor ≡ length w.file.content) where
  short_content :
      (n m : ℕ) (p : Bytes)
      → w.pending_epoch < m
      → length p ≤ max_payload_size
      → let torn : Bytes = take n (frame (record { epoch = m; payload = p })) in
        ((append_raw (short n) m p w).0.file.content ≡ w.file.content ++ torn)
        × ((append_raw (short n) m p w).0.file.cursor ≡ length (w.file.content ++ torn))
  short_content n m p h k =
      let torn : Bytes = take n (frame (record { epoch = m; payload = p })) in
      rw (short_state n m p w h k, write_at_end torn w.file end)
        (refl, omega (arith, length-append w.file.content torn))

  append_content :
      (k : ℕ) (q : Bytes)
      → (append_raw all k q w).1 ≡ ok tt
      → (append_raw all k q w).0.file.content
        ≡ w.file.content ++ frame (record { epoch = k; payload = q })
  append_content k q r = rw (append_state k q w r, write_at_end _ w.file end) refl

synced_content : (w : Wal) → (fsync true w).0.file.durable ≡ w.file.content
unfolding fsync
synced_content w = refl

-- An append fails after one to three bytes of its frame; the next append succeeds and is synced.
-- What is then on the disk parses to the entries from before the failure: the synced entry is lost.
pub short_write_hides_synced :
    (w : Wal) (synced later : List WalEntry) (n m k : ℕ) (p q : Bytes)
    → IsLog w synced later
    → 1 ≤ n
    → n ≤ 3
    → w.pending_epoch < m
    → length p ≤ max_payload_size
    → (append_raw all k q (append_raw (short n) m p w).0).1 ≡ ok tt
    → parse_wal_frames_with_pos
        (fsync true (append_raw all k q (append_raw (short n) m p w).0).0).0.file.durable
      ≡ some (synced ++ later, length (frames (synced ++ later)))
short_write_hides_synced w synced later n m k p q h low high fresh small r =
    let d : WalEntry = record { epoch = m; payload = p } in
    let e : WalEntry = record { epoch = k; payload = q } in
    let w1 : Wal = (append_raw (short n) m p w).0 in
    let (content1, cursor1) = short_content w h.cursor n m p fresh small in
    let total : (append_raw all k q w1).0.file.content
        ≡ frames (synced ++ later) ++ (take n (frame d) ++ frame e) =
      append_content w1 (cursor1 ∙ ap length (sym content1)) k q r
      ∙ ap (λ c. c ++ frame e) (content1 ∙ ap (λ c. c ++ take n (frame d)) h.content)
      ∙ append_assoc (frames (synced ++ later)) (take n (frame d)) (frame e) in
    ap parse_wal_frames_with_pos (synced_content (append_raw all k q w1).0 ∙ total)
    ∙ parse-frames (synced ++ later) (take n (frame d) ++ frame e) h.fits
        (inr (decode_shadowed n d e low high))
