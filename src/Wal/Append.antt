-- ===== src/Wal/Append.antt =====
-- What a successful append has checked, and what it leaves.
use ferratomic.Prelude.{
  ℕ, ◌+◌, ◌≤◌, ◌<◌, ◌≡◌, ◌⊎◌, [], ◌++◌, length, append-nil, arith, max, take, drop, take_all,
  drop_all,
}
use ferratomic.Prelude.Results.{ok}
use ferratomic.Prelude.Bytes.{Bytes}
use ferratomic.Wal.Frame.{max_payload_size, frame}
use ferratomic.Wal.State.{File, Wal, all, write_at, append_raw}

-- A write at the end of the file appends.
pub write_at_end :
    (bytes : Bytes) (f : File)
    → f.cursor ≡ length f.content
    → write_at bytes f ≡ record f { content = f.content ++ bytes; cursor = f.cursor + length bytes }
unfolding write_at
write_at_end bytes f h =
    let front : take f.cursor f.content ≡ f.content = take_all f.cursor f.content (omega arith) in
    let back : drop (f.cursor + length bytes) f.content ≡ [] =
      drop_all (f.cursor + length bytes) f.content (omega arith) in
    rw (front, back, append-nil)

-- What a successful append has checked, and the state that it leaves.
pub append_inv :
    (n : ℕ) (p : Bytes) (w : Wal)
    → (append_raw all n p w).1 ≡ ok tt
    → (w.pending_epoch ≡ 0) ⊎ (w.pending_epoch < n)
unfolding append_raw
append_inv n p w r = ground arith

pub append_inv_size :
    (n : ℕ) (p : Bytes) (w : Wal) → (append_raw all n p w).1 ≡ ok tt → length p ≤ max_payload_size
unfolding append_raw
append_inv_size n p w r = ground arith

pub append_state :
    (n : ℕ) (p : Bytes) (w : Wal)
    → (append_raw all n p w).1 ≡ ok tt
    → (append_raw all n p w).0 ≡ record w {
      file = write_at (frame (record { epoch = n; payload = p })) w.file;
      pending_epoch = max w.pending_epoch n;
    }
unfolding append_raw
append_state n p w r = ground arith
