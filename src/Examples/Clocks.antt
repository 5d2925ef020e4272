-- ===== src/Examples/Clocks.antt =====
-- The theorems about the clock and the frontier at concrete inputs, and runs of the operations.
use ferratomic.Prelude.{ℕ, ◌^◌, ◌≤◌, ◌≡◌, ◌↔◌, refl, List, [], ◌∷◌, arith}
use ferratomic.Prelude.Results.{ok, err}
use ferratomic.Clock.TxId.{NodeId, TxId}
use ferratomic.Clock.Hybrid.{HybridClock, logical_overflow, tick, receive}
use ferratomic.Clock.Laws.{InRange, tick_overflow}
use ferratomic.Clock.History.{
  Event, ticks, receives, issued, seen, IsCausal, history, history-IsCausal,
}
use ferratomic.Clock.Frontier.{
  Frontier, IsFrontier, advance, merge, get, join, advance-IsFrontier, merge_semilattice,
}

abbrev alice : NodeId
alice = 1 ∷ []

abbrev bob : NodeId
bob = 2 ∷ []

abbrev at : ℕ → ℕ → NodeId → TxId
at p l n = record { physical = p; logical = l; node = n }

abbrev clock : HybridClock
clock = record { physical = 100; logical = 4; node = alice }

-- A wall clock that stands still.
abbrev frozen : ℕ → ℕ → ℕ
frozen n i = n

tick-frozen : tick (frozen 100) clock ≡ (record clock { logical = 5 }, ok (at 100 5 alice))
unfolding tick
tick-frozen = refl

tick_moved :
    tick (frozen 107) clock ≡ (record clock { physical = 107; logical = 0 }, ok (at 107 0 alice))
unfolding tick
tick_moved = refl

tick_overflow_example :
    (((tick (frozen 100) clock).1 ≡ err logical_overflow)
      ↔ ((2 ^ 32 ≤ 5) × ((i : ℕ) → i ≤ 1_000_000 → 100 ≤ 100)))
    × ((tick (frozen 100) clock).1 ≡ err logical_overflow → (tick (frozen 100) clock).0 ≡ clock)
tick_overflow_example = tick_overflow (frozen 100) clock

clock-InRange : InRange clock
clock-InRange = record { physical = omega arith; logical = omega arith }

abbrev life : List Event
life = ticks (frozen 100) ∷ receives 101 (at 130 6 bob) ∷ ticks (frozen 102) ∷ []

life_runs :
    history clock life
    ≡ issued (at 100 5 alice) ∷ seen (at 130 6 bob) ∷ issued (at 130 7 alice) ∷ []
unfolding history tick receive
life_runs = refl

history-IsCausal_example : IsCausal (history clock life)
history-IsCausal_example = history-IsCausal clock life

abbrev ours : Frontier
ours = advance bob (at 5 0 bob) (advance alice (at 9 1 alice) [])

abbrev theirs : Frontier
theirs = advance bob (at 6 0 bob) []

ours-IsFrontier : IsFrontier ours
ours-IsFrontier =
    advance-IsFrontier bob (at 5 0 bob) _ (advance-IsFrontier alice (at 9 1 alice) [] tt)

theirs-IsFrontier : IsFrontier theirs
theirs-IsFrontier = advance-IsFrontier bob (at 6 0 bob) [] tt

merge_semilattice_example :
    ((n : NodeId) → get n (merge ours theirs) ≡ join (get n ours) (get n theirs))
    × (merge ours theirs ≡ merge theirs ours)
    × (merge (merge ours theirs) ours ≡ merge ours (merge theirs ours))
    × (merge ours ours ≡ ours)
merge_semilattice_example =
    merge_semilattice ours theirs ours ours-IsFrontier theirs-IsFrontier ours-IsFrontier
