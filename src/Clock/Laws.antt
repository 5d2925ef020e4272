-- ===== src/Clock/Laws.antt =====
-- What one call of `tick` or `receive` does to the clock (INV-FERR-015, INV-FERR-016).
use ferratomic.Prelude.{
  ℕ, zero, suc, ◌+◌, ◌^◌, ◌≤◌, ◌<◌, ◌≡◌, refl, ◌⊎◌, inl, inr, ◌↔◌, none, some, ltb, arith,
  Bool-cases, Option-cases,
}
use ferratomic.Prelude.Results.{ok, err}
use ferratomic.Clock.TxId.{TxId, ◌⊏◌, tx_cmp}
use ferratomic.Clock.Hybrid.{
  HybridClock, logical_overflow, max_busy_wait_retries, rest, spin, stamp, tick, receive,
}

-- The clock has reached the timestamp: no later one that it issues can be below.
abbrev pub Reached : TxId → HybridClock → Type 0
Reached t c = (t.physical < c.physical) ⊎ ((t.physical ≡ c.physical) × (t.logical ≤ c.logical))

-- Its components fit `u64` and `u32`.
pub record InRange (c : HybridClock) : Type 0 where
  pub physical : c.physical < 2 ^ 64
  pub logical : c.logical < 2 ^ 32

-- A reading that ends the wait lies above the clock, and is one of the wait's.
spin-some :
    (k : ℕ) (reads : ℕ → ℕ) (p : ℕ) {q : ℕ}
    → spin k reads p ≡ some q
    → (p < q) × ((i : ℕ) × (i < k) × (q ≡ reads i))
unfolding spin
spin-some zero reads p h = cc
spin-some (suc k) reads p h = elim (Bool-cases (ltb p (reads 0))) [
  | inl e ↦ (ground arith, (0, omega arith, ground arith))
  | inr e ↦
      let (above, (i, below, found)) = spin-some k (rest reads) p (rw (e, spin) at h) in
      (above, (suc i, omega arith, found))
]

spin-none : (k : ℕ) (reads : ℕ → ℕ) (p i : ℕ) → spin k reads p ≡ none → i < k → reads i ≤ p
unfolding spin
spin-none zero reads p i h b = absurd (omega arith)
spin-none (suc k) reads p zero h b = ground arith
spin-none (suc k) reads p (suc i) h b = ground (arith, spin-none k (rest reads) p i)

spin_stuck :
    (k : ℕ) (reads : ℕ → ℕ) (p : ℕ) → ((i : ℕ) → i < k → reads i ≤ p) → spin k reads p ≡ none
unfolding spin
spin_stuck zero reads p h = refl
spin_stuck (suc k) reads p h =
    ground (arith, h 0, spin_stuck k (rest reads) p (λ i b. h (suc i) (omega arith)))

-- A timestamp that `tick` returns is the new state, and the components have advanced.
tick_ok :
    (reads : ℕ → ℕ) (c : HybridClock) {c' : HybridClock} {t : TxId}
    → tick reads c ≡ (c', ok t)
    → (t ≡ stamp c')
      × (c'.node ≡ c.node)
      × ((c.physical < c'.physical) ⊎ ((c'.physical ≡ c.physical) × (c'.logical ≡ c.logical + 1)))
unfolding tick
tick_ok reads c h = elim (Option-cases (spin max_busy_wait_retries (rest reads) c.physical)) [
  | inl e ↦ ground (arith, e)
  | inr (q, e) ↦ ground (arith, e, spin-some max_busy_wait_retries (rest reads) c.physical e)
]

above_of_reached :
    (u : TxId) (c c' : HybridClock)
    → Reached u c
    → (c.physical < c'.physical) ⊎ ((c'.physical ≡ c.physical) × (c'.logical ≡ c.logical + 1))
    → u ⊏ stamp c'
unfolding tx_cmp
above_of_reached u c c' r a = ground arith

-- The timestamp that `tick` returns is the clock's new state, carries the clock's node, lies
-- above every timestamp that the clock had reached, and is reached.
pub tick_above :
    (reads : ℕ → ℕ) (c : HybridClock) {c' : HybridClock} {t : TxId} (u : TxId)
    → tick reads c ≡ (c', ok t)
    → Reached u c
    → (u ⊏ t) × (t ≡ stamp c') × (t.node ≡ c.node) × Reached t c'
tick_above reads c {c' = c'} u h r =
    let (e, n, a) = tick_ok reads c h in
    (rw e (above_of_reached u c c' r a), e, rw e n, rw e (inr (refl, omega arith)))

-- A `tick` keeps what the clock had reached, also when it fails.
pub tick-Reached :
    (reads : ℕ → ℕ) (c : HybridClock) (u : TxId) → Reached u c → Reached u (tick reads c).0
unfolding tick
tick-Reached reads c u r =
    elim (Option-cases (spin max_busy_wait_retries (rest reads) c.physical)) [
      | inl e ↦ ground (arith, e)
      | inr (q, e) ↦ ground (arith, e, spin-some max_busy_wait_retries (rest reads) c.physical e)
    ]

tick_fails :
    (reads : ℕ → ℕ) (c : HybridClock)
    → (tick reads c).1 ≡ err logical_overflow
    → ((tick reads c).0 ≡ c)
      × (reads 0 ≤ c.physical)
      × (2 ^ 32 ≤ c.logical + 1)
      × (spin max_busy_wait_retries (rest reads) c.physical ≡ none)
unfolding tick
tick_fails reads c h = elim (Option-cases (spin max_busy_wait_retries (rest reads) c.physical)) [
  | inl e ↦ ground (arith, e)
  | inr (q, e) ↦ ground (arith, e)
]

stays_below :
    (reads : ℕ → ℕ) (p i : ℕ)
    → reads 0 ≤ p
    → spin max_busy_wait_retries (rest reads) p ≡ none
    → i ≤ max_busy_wait_retries
    → reads i ≤ p
stays_below reads p zero first e b = first
stays_below reads p (suc i) first e b =
    spin-none max_busy_wait_retries (rest reads) p i e (omega arith)

-- `tick` fails exactly when the counter is at its maximum and none of the readings, the first and
-- one million more, lies above the clock; and then the clock is unchanged.
pub tick_overflow :
    (reads : ℕ → ℕ) (c : HybridClock)
    → (((tick reads c).1 ≡ err logical_overflow)
        ↔ ((2 ^ 32 ≤ c.logical + 1) × ((i : ℕ) → i ≤ max_busy_wait_retries → reads i ≤ c.physical)))
      × ((tick reads c).1 ≡ err logical_overflow → (tick reads c).0 ≡ c)
tick_overflow reads c = (
  (
    (λ h.
        let (_, first, full, e) = tick_fails reads c h in
        (full, λ i. stays_below reads c.physical i first e)),
    (λ h. fails h.0 (h.1 0 (omega arith)) (
        spin_stuck max_busy_wait_retries (rest reads) c.physical
          (λ i b. h.1 (suc i) (omega arith)))),
  ),
  (λ h. (tick_fails reads c h).0),
)
  where
    fails :
        2 ^ 32 ≤ c.logical + 1
        → reads 0 ≤ c.physical
        → spin max_busy_wait_retries (rest reads) c.physical ≡ none
        → (tick reads c).1 ≡ err logical_overflow
    fails full first e = unfold tick in ground (arith, e)

tick-InRange :
    (reads : ℕ → ℕ) (c : HybridClock)
    → ((i : ℕ) → reads i < 2 ^ 64)
    → InRange c
    → InRange (tick reads c).0
unfolding tick
tick-InRange reads c fits r =
    elim (Option-cases (spin max_busy_wait_retries (rest reads) c.physical)) [
      | inl e ↦ ground (arith, e, fits 0)
      | inr (q, e) ↦
          let (_, (i, _, found)) = spin-some max_busy_wait_retries (rest reads) c.physical e in
          ground (arith, e, found, fits 0, fits (suc i))
    ]

-- After `receive` the clock has reached the remote timestamp, and all that it had reached.
pub receive-Reached :
    (now : ℕ) (c : HybridClock) (remote u : TxId)
    → Reached u c
    → Reached u (receive now c remote) × Reached remote (receive now c remote)
unfolding receive
receive-Reached now c remote u h = ground arith

receive-InRange :
    (now : ℕ) (c : HybridClock) (remote : TxId)
    → now < 2 ^ 64
    → remote.physical < 2 ^ 64
    → remote.logical < 2 ^ 32
    → InRange c
    → InRange (receive now c remote)
unfolding receive
receive-InRange now c remote hn hp hl r = ground arith

-- `tick`, whether it succeeds or fails, and `receive` keep the components within `u64` and `u32`,
-- given readings and a remote timestamp that fit.
pub calls-InRange :
    (reads : ℕ → ℕ) (c : HybridClock) (remote : TxId)
    → ((i : ℕ) → reads i < 2 ^ 64)
    → remote.physical < 2 ^ 64
    → remote.logical < 2 ^ 32
    → InRange c
    → InRange (tick reads c).0 × InRange (receive (reads 0) c remote)
calls-InRange reads c remote fits hp hl r =
    (tick-InRange reads c fits r, receive-InRange (reads 0) c remote (fits 0) hp hl r)
