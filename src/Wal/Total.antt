-- ===== src/Wal/Total.antt =====
-- The parsing of a log ends: the fuel of parse_wal_frames_with_pos is enough (INV-FERR-014).
use ferratomic.Prelude.{
  ℕ, zero, suc, ◌+◌, ◌<◌, ◌≤◌, ◌≡◌, refl, inl, inr, Option, some, List, leb, ◌∷◌, Option-cases,
  Bool-cases, length, arith,
}
use ferratomic.Prelude.Bytes.{Bytes}
use ferratomic.Wal.Frame.{
  WalEntry, try_parse_frame, push_entry, parse_loop, parse_wal_frames_with_pos,
}

-- A frame is not empty, and lies within the bytes.
frame_ends :
    (buf : Bytes) (pos : ℕ) (e : WalEntry) (n : ℕ)
    → try_parse_frame buf pos ≡ some (e, n)
    → (pos < n) × (n ≤ length buf)
unfolding try_parse_frame
frame_ends buf pos e n h = ground arith

pushed :
    (e : WalEntry) (x : Option (List WalEntry × ℕ))
    → (r : List WalEntry × ℕ) × (x ≡ some r)
    → (r : List WalEntry × ℕ) × (push_entry e x ≡ some r)
pushed e x ((entries, last), h) = ((e ∷ entries, last), rw h refl)

parse_loop_ends :
    (fuel : ℕ) (buf : Bytes) (pos : ℕ)
    → pos ≤ length buf
    → length buf < pos + fuel
    → (r : List WalEntry × ℕ) × (parse_loop fuel buf pos ≡ some r)
unfolding parse_loop
parse_loop_ends zero buf pos within enough = absurd (omega (arith, within, enough))
parse_loop_ends (suc fuel) buf pos within enough = elim (Bool-cases (leb (pos + 22) (length buf))) [
  | inr b ↦ rw b (_, refl)
  | inl b ↦ rw b (elim (Option-cases (try_parse_frame buf pos)) [
    | inl h ↦ rw h (_, refl)
    | inr ((e, n), h) ↦
        let (after, inside) = frame_ends buf pos e n h in
        rw h (
          pushed e (parse_loop fuel buf n)
            (parse_loop_ends fuel buf n inside (omega (arith, after, enough))))
  ])
]

pub parse_ends : (buf : Bytes) → (r : List WalEntry × ℕ) × (parse_wal_frames_with_pos buf ≡ some r)
unfolding parse_wal_frames_with_pos
parse_ends buf = parse_loop_ends (suc (length buf)) buf 0 (omega arith) (omega arith)
