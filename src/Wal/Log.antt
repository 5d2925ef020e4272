-- ===== src/Wal/Log.antt =====
-- Parsing a whole log: the frames of a list of entries, cut off anywhere.
use ferratomic.Prelude.{
  ℕ, zero, suc, ◌+◌, ◌<◌, ◌≡◌, ap, ◌∙◌, ◌⊎◌, inl, inr, none, some, List, [], ◌∷◌, ◌++◌, length,
  length-append, append_assoc, All, arith,
}
use ferratomic.Prelude.Bytes.{Bytes}
use ferratomic.Wal.Frame.{
  min_frame_size, WalEntry, frame, try_parse_frame, push_entry, parse_loop,
  parse_wal_frames_with_pos,
}
use ferratomic.Wal.Parse.{
  Fits, decode, relocate, try_parse_frame-decode, decode-frame, length-frame,
}

-- The bytes of a log to which the entries were appended in turn.
unfoldable pub frames : List WalEntry → Bytes
frames [] = []
frames (e ∷ es) = frame e ++ frames es

-- Bytes at which the loop stops: too few for a frame, or none that is valid.
abbrev pub Stops : Bytes → Type 0
Stops s = (length s < min_frame_size) ⊎ (decode s ≡ none)

loop-Stops :
    (fuel : ℕ) (pre s : Bytes)
    → Stops s
    → parse_loop (suc fuel) (pre ++ s) (length pre) ≡ some ([], length pre)
unfolding parse_loop
loop-Stops fuel pre s (inl short) = ground (arith, length-append pre s)
loop-Stops fuel pre s (inr bad) = ground (arith, length-append pre s, try_parse_frame-decode pre s)

loop_steps :
    (fuel : ℕ) (pre rest : Bytes) (e : WalEntry)
    → Fits e
    → parse_loop (suc fuel) (pre ++ (frame e ++ rest)) (length pre)
      ≡ push_entry e (parse_loop fuel ((pre ++ frame e) ++ rest) (length (pre ++ frame e)))
unfolding parse_loop
loop_steps fuel pre rest e fits =
    let buf : Bytes = pre ++ (frame e ++ rest) in
    let parsed : try_parse_frame buf (length pre) ≡ some (e, length pre + length (frame e)) =
      try_parse_frame-decode pre (frame e ++ rest)
      ∙ ap (relocate (length pre)) (decode-frame e rest fits) in
    rw (append_assoc pre (frame e) rest, length-append pre (frame e))
      (ground (
        arith,
        parsed,
        length-append pre (frame e ++ rest),
        length-append (frame e) rest,
        length-frame e,
      ))

-- The loop reads every entry, and stops where the frames end.
loop-frames :
    (es : List WalEntry) (fuel : ℕ) (pre tail : Bytes)
    → All Fits es
    → Stops tail
    → length (frames es) < fuel
    → parse_loop fuel (pre ++ (frames es ++ tail)) (length pre)
      ≡ some (es, length pre + length (frames es))
unfolding frames
loop-frames es zero pre tail fits stops h = absurd (omega arith)
loop-frames [] (suc fuel) pre tail fits stops h =
    loop-Stops fuel pre tail stops ∙ ap (λ n. some ([], n)) (omega arith)
loop-frames (e ∷ es) (suc fuel) pre tail fits stops h =
    let sizes = length-append (frame e) (frames es) in
    let later =
      loop-frames es fuel (pre ++ frame e) tail fits.1 stops
        (omega (arith, sizes, length-frame e)) in
    ap (λ b. parse_loop (suc fuel) (pre ++ b) (length pre))
      (append_assoc (frame e) (frames es) tail)
    ∙ loop_steps fuel pre (frames es ++ tail) e fits.0
    ∙ ap (push_entry e) later
    ∙ ap (λ n. some (e ∷ es, n)) (omega (arith, sizes, length-append pre (frame e)))

-- A log of entries that the writer accepts, with bytes behind it at which parsing stops, is read
-- back whole, and the offset is where the frames end.
pub parse-frames :
    (es : List WalEntry) (tail : Bytes)
    → All Fits es
    → Stops tail
    → parse_wal_frames_with_pos (frames es ++ tail) ≡ some (es, length (frames es))
unfolding parse_wal_frames_with_pos
parse-frames es tail fits stops =
    loop-frames es (suc (length (frames es ++ tail))) [] tail fits stops
      (omega (arith, length-append (frames es) tail))
    ∙ ap (λ n. some (es, n)) (omega arith)
