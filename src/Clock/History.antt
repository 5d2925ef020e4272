-- ===== src/Clock/History.antt =====
-- A node's life as a sequence of calls on its clock, in any order: its own ticks, and the remote
-- timestamps that arrive in between (INV-FERR-016).
use ferratomic.Prelude.{ℕ, ◌≡◌, refl, List, [], ◌∷◌, inr, arith}
use ferratomic.Prelude.Results.{Result, ok, err}
use ferratomic.Clock.TxId.{TxId, ◌⊏◌}
use ferratomic.Clock.Hybrid.{HybridClock, ClockError, stamp, tick, receive}
use ferratomic.Clock.Laws.{Reached, tick_above, tick-Reached, receive-Reached}

pub data Event : Type 0 where
  ticks : (ℕ → ℕ) → Event
  receives : ℕ → TxId → Event

pub data Entry : Type 0 where
  issued : TxId → Entry
  seen : TxId → Entry

abbrev record_tick : Result ClockError TxId → List Entry → List Entry
record_tick (ok t) later = issued t ∷ later
record_tick (err e) later = later

-- The timestamps that the node issues and sees, oldest first.
unfoldable pub history : HybridClock → List Event → List Entry
history c [] = []
history c (ticks reads ∷ events) = let (c', r) = tick reads c in record_tick r (history c' events)
history c (receives now remote ∷ events) = seen remote ∷ history (receive now c remote) events

-- Every timestamp issued in the entries lies above `u`.
abbrev pub IssuedAbove : TxId → List Entry → Type 0
IssuedAbove u [] = Unit
IssuedAbove u (issued t ∷ l) = (u ⊏ t) × IssuedAbove u l
IssuedAbove u (seen t ∷ l) = IssuedAbove u l

-- Whatever a timestamp follows, issued or seen, it lies above.
abbrev pub IsCausal : List Entry → Type 0
IsCausal [] = Unit
IsCausal (issued t ∷ l) = IssuedAbove t l × IsCausal l
IsCausal (seen t ∷ l) = IssuedAbove t l × IsCausal l

record_tick-above :
    (reads : ℕ → ℕ) (c c' : HybridClock) (r : Result ClockError TxId) (u : TxId) (l : List Entry)
    → tick reads c ≡ (c', r)
    → Reached u c
    → IssuedAbove u l
    → IssuedAbove u (record_tick r l)
record_tick-above reads c c' (ok t) u l e h a = ((tick_above reads c u e h).0, a)
record_tick-above reads c c' (err x) u l e h a = a

history-above :
    (u : TxId) (c : HybridClock) (events : List Event)
    → Reached u c
    → IssuedAbove u (history c events)
unfolding history
history-above u c [] h = tt
history-above u c (ticks reads ∷ events) h =
    record_tick-above reads c (tick reads c).0 (tick reads c).1 u _ refl h
      (history-above u (tick reads c).0 events (tick-Reached reads c u h))
history-above u c (receives now remote ∷ events) h =
    history-above u (receive now c remote) events (receive-Reached now c remote u h).0

record_tick-IsCausal :
    (reads : ℕ → ℕ) (c c' : HybridClock) (r : Result ClockError TxId) (events : List Event)
    → tick reads c ≡ (c', r)
    → IsCausal (history c' events)
    → IsCausal (record_tick r (history c' events))
record_tick-IsCausal reads c c' (ok t) events e h =
    let (_, _, _, reached) = tick_above reads c (stamp c) e (inr (refl, omega arith)) in
    (history-above t c' events reached, h)
record_tick-IsCausal reads c c' (err x) events e h = h

-- Whatever the readings of the wall clock, every timestamp that a node issues lies above every
-- timestamp that the node issued or received before it.
pub history-IsCausal : (c : HybridClock) (events : List Event) → IsCausal (history c events)
unfolding history
history-IsCausal c [] = tt
history-IsCausal c (ticks reads ∷ events) =
    record_tick-IsCausal reads c (tick reads c).0 (tick reads c).1 events refl
      (history-IsCausal (tick reads c).0 events)
history-IsCausal c (receives now remote ∷ events) =
    let reached = receive-Reached now c remote (stamp c) (inr (refl, omega arith)) in
    (
      history-above remote (receive now c remote) events reached.1,
      history-IsCausal (receive now c remote) events,
    )
