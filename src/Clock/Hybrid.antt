-- ===== src/Clock/Hybrid.antt =====
-- `HybridClock` (ferratom-clock/src/lib.rs). The wall clock is outside the program: the readings
-- that one call takes from it are an argument, `reads i` being the i-th of them.
use ferratomic.Prelude.{
  ℕ, zero, suc, ◌+◌, ◌^◌, max, ◌&&◌, true, false, Option, none, some, ltb, ◌==◌, if◌then◌else◌,
}
use ferratomic.Prelude.Results.{Result, ok, err}
use ferratomic.Clock.TxId.{NodeId, TxId, with_node}

pub data ClockError : Type 0 where
  logical_overflow : ClockError

abbrev pub max_busy_wait_retries : ℕ
max_busy_wait_retries = 1_000_000

pub record HybridClock : Type 0 where
  pub physical : ℕ
  pub logical : ℕ
  pub node : NodeId

abbrev pub with_clock : NodeId → HybridClock
with_clock node = record { physical = 0; logical = 0; node = node }

abbrev pub rest : (ℕ → ℕ) → ℕ → ℕ
rest reads i = reads (suc i)

-- The busy wait: at most `retries` further readings, until one lies above `physical`.
unfoldable pub spin : ℕ → (ℕ → ℕ) → ℕ → Option ℕ
spin zero reads physical = none
spin (suc retries) reads physical = elim (ltb physical (reads 0)) [
  | true ↦ some (reads 0)
  | false ↦ spin retries (rest reads) physical
]

abbrev pub stamp : HybridClock → TxId
stamp c = with_node c.physical c.logical c.node

-- The call's last line: the timestamp is that of the new state.
abbrev issue : HybridClock → HybridClock × Result ClockError TxId
issue c = (c, ok (stamp c))

abbrev adopt : HybridClock → Option ℕ → HybridClock × Result ClockError TxId
adopt c none = (c, err logical_overflow)
adopt c (some now) = issue (record c { physical = now; logical = 0 })

unfoldable pub tick : (ℕ → ℕ) → HybridClock → HybridClock × Result ClockError TxId
tick reads c =
    if ltb c.physical (reads 0)
    then issue (record c { physical = reads 0; logical = 0 })
    else if ltb (c.logical + 1) (2 ^ 32)
    then issue (record c { logical = c.logical + 1 })
    else adopt c (spin max_busy_wait_retries (rest reads) c.physical)

unfoldable pub receive : ℕ → HybridClock → TxId → HybridClock
receive now c remote =
    let physical = max (max now c.physical) remote.physical in
    record c {
      physical = physical;
      logical =
          if physical == c.physical && physical == remote.physical
          then max c.logical remote.logical
          else if physical == c.physical
          then c.logical
          else if physical == remote.physical
          then remote.logical
          else 0;
    }
