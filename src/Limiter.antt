-- ===== src/Limiter.antt =====
-- The concurrency limiter for writes (ferratomic-core/src/backpressure.rs). Threads share one atomic
-- counter; a schedule says which of them takes its next atomic step.
pub mod Bound
use ferratomic.Prelude.{
  ℕ, zero, suc, ◌+◌, ◌-◌, ◌%◌, ◌^◌, ◌≤◌, ◌<◌, ◌≡◌, List, [], ◌∷◌, leb, if◌then◌else◌, replicate,
}

-- Where a thread stands: outside, in `try_acquire` between the increment, which returned the given
-- value, and the test of it, or with a guard in hand.
pub data Thread : Type 0 where
  idle : Thread
  trying : ℕ → Thread
  holding : Thread

-- `AtomicUsize` wraps around.
abbrev pub fetch_add_one : ℕ → ℕ
fetch_add_one active = (active + 1) % 2 ^ 64

abbrev pub fetch_sub_one : ℕ → ℕ
fetch_sub_one active = (active + (2 ^ 64 - 1)) % 2 ^ 64

-- The next atomic step of a thread: of `try_acquire`, or of the guard's `drop`.
abbrev pub advance_thread : ℕ → ℕ → Thread → ℕ × Thread
advance_thread max active idle = (fetch_add_one active, trying active)
advance_thread max active (trying prev) =
    if leb max prev then (fetch_sub_one active, idle) else (active, holding)
advance_thread max active holding = (fetch_sub_one active, idle)

pub record WriteLimiter : Type 0 where
  pub active : ℕ
  pub threads : List Thread

-- The `i`-th thread takes its step.
unfoldable pub step_thread : ℕ → ℕ → ℕ → List Thread → ℕ × List Thread
step_thread max i active [] = (active, [])
step_thread max zero active (t ∷ ts) =
    let (active', t') = advance_thread max active t in (active', t' ∷ ts)
step_thread max (suc i) active (t ∷ ts) =
    let (active', ts') = step_thread max i active ts in (active', t ∷ ts')

unfoldable pub run : ℕ → List ℕ → WriteLimiter → WriteLimiter
run max [] s = s
run max (i ∷ schedule) s =
    let (active, threads) = step_thread max i s.active s.threads in
    run max schedule (record { active = active; threads = threads })

-- `WriteLimiter::new`, with `n` threads that may call it.
abbrev pub new_limiter : ℕ → WriteLimiter
new_limiter n = record { active = 0; threads = replicate n idle }
