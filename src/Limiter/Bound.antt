-- ===== src/Limiter/Bound.antt =====
-- No more guards than the limit are out at a time (INV-FERR-021).
use ferratomic.Prelude.{
  ℕ, zero, suc, ◌+◌, ◌^◌, ◌≤◌, ◌<◌, ◌≡◌, refl, sym, ap, ◌∙◌, ◌⊎◌, inl, inr, true, List, [], ◌∷◌,
  leb, ltb, if◌then◌else◌, replicate, length, length-replicate, arith, Bool-cases,
}
use ferratomic.Limiter.{
  Thread, idle, trying, holding, fetch_add_one, fetch_sub_one, WriteLimiter, step_thread, run,
  new_limiter,
}

abbrev is_busy : Thread → ℕ
is_busy idle = 0
is_busy (trying prev) = 1
is_busy holding = 1

abbrev is_winner : ℕ → Thread → ℕ
is_winner max idle = 0
is_winner max (trying prev) = if ltb prev max then 1 else 0
is_winner max holding = 1

abbrev is_holder : Thread → ℕ
is_holder holding = 1
is_holder _ = 0

abbrev pub count : (Thread → ℕ) → List Thread → ℕ
count f [] = 0
count f (t ∷ ts) = f t + count f ts

-- The threads that are counted in `active`, and those that hold a guard.
abbrev pub busy : List Thread → ℕ
busy = count is_busy

abbrev pub holders : List Thread → ℕ
holders = count is_holder

-- The holders, and the threads that will be when they take their next step.
abbrev winners : ℕ → List Thread → ℕ
winners max = count (is_winner max)

-- What one step does to the counter and to the threads.
record Effect (max a a' : ℕ) (ts ts' : List Thread) : Type 0 where
  size : length ts' ≡ length ts
  change :
      ((a' ≡ fetch_add_one a)
        × (busy ts' ≡ busy ts + 1)
        × (winners max ts' ≤ winners max ts + is_winner max (trying a)))
      ⊎ (((a' ≡ a) × (busy ts' ≡ busy ts) × (winners max ts' ≤ winners max ts))
          ⊎ ((a' ≡ fetch_sub_one a)
              × (busy ts' + 1 ≡ busy ts)
              × (winners max ts' ≤ winners max ts)))

effect :
    (max i a : ℕ) (ts : List Thread)
    → Effect max a (step_thread max i a ts).0 ts (step_thread max i a ts).1
unfolding step_thread
effect max i a [] = record { size = refl; change = inr (inl (refl, refl, omega arith)) }
effect max zero a (idle ∷ ts) = record {
  size = refl;
  change = inl (refl, omega arith, omega arith);
}
effect max zero a (trying prev ∷ ts) = elim (Bool-cases (leb max prev)) [
  | inl e ↦ rw e (record { size = refl; change = inr (inr (refl, omega arith, omega arith)) })
  | inr e ↦
      let wins : ltb prev max ≡ true = ground arith in
      rw e (record { size = refl; change = inr (inl (refl, omega arith, rw wins (omega arith))) })
]
effect max zero a (holding ∷ ts) = record {
  size = refl;
  change = inr (inr (refl, omega arith, omega arith));
}
effect max (suc i) a (t ∷ ts) =
    let e = effect max i a ts in record { size = ap suc e.size; change = ground (arith, e.change) }

winners-busy : (max : ℕ) (ts : List Thread) → winners max ts ≤ busy ts
winners-busy max [] = omega arith
winners-busy max (idle ∷ ts) = omega (arith, winners-busy max ts)
winners-busy max (trying prev ∷ ts) = ground (arith, winners-busy max ts)
winners-busy max (holding ∷ ts) = omega (arith, winners-busy max ts)

holders-winners : (max : ℕ) (ts : List Thread) → holders ts ≤ winners max ts
holders-winners max [] = omega arith
holders-winners max (idle ∷ ts) = omega (arith, holders-winners max ts)
holders-winners max (trying prev ∷ ts) = ground (arith, holders-winners max ts)
holders-winners max (holding ∷ ts) = omega (arith, holders-winners max ts)

busy-length : (ts : List Thread) → busy ts ≤ length ts
busy-length [] = omega arith
busy-length (idle ∷ ts) = omega (arith, busy-length ts)
busy-length (trying prev ∷ ts) = omega (arith, busy-length ts)
busy-length (holding ∷ ts) = omega (arith, busy-length ts)

-- The counter counts the busy threads, of which at most `max` hold a guard or are to hold one.
record IsLimited (max n : ℕ) (s : WriteLimiter) : Type 0 where
  size : length s.threads ≡ n
  counted : s.active ≡ busy s.threads
  bounded : winners max s.threads ≤ max

wins_below : (max a : ℕ) (w : ℕ) → w ≤ a → w ≤ max → w + is_winner max (trying a) ≤ max
wins_below max a w h g = ground arith

step-IsLimited :
    (max n a a' : ℕ) (ts ts' : List Thread)
    → n < 2 ^ 64
    → Effect max a a' ts ts'
    → IsLimited max n (record { active = a; threads = ts })
    → IsLimited max n (record { active = a'; threads = ts' })
step-IsLimited max n a a' ts ts' fits e h =
    let more = busy-length ts in
    let more' = busy-length ts' in
    let below =
      wins_below max a (winners max ts) (omega (arith, winners-busy max ts, h.counted)) h.bounded in
    record {
      size = e.size ∙ h.size;
      counted = ground (arith, e.change, e.size, more', h.size, h.counted, more);
      bounded = ground (arith, e.change, below, h.bounded);
    }

run-IsLimited :
    (max n : ℕ) (schedule : List ℕ) (s : WriteLimiter)
    → n < 2 ^ 64
    → IsLimited max n s
    → IsLimited max n (run max schedule s)
unfolding run
run-IsLimited max n [] s fits h = h
run-IsLimited max n (i ∷ schedule) s fits h =
    run-IsLimited max n schedule _ fits
      (step-IsLimited max n s.active _ s.threads _ fits (effect max i s.active s.threads) h)

new_busy : (n : ℕ) → busy (replicate n idle) ≡ 0
new_busy zero = refl
new_busy (suc n) = omega (arith, new_busy n)

new-IsLimited : (max n : ℕ) → IsLimited max n (new_limiter n)
new-IsLimited max n = record {
  size = length-replicate n idle;
  counted = sym (new_busy n);
  bounded = omega (arith, winners-busy max (replicate n idle), new_busy n);
}

-- Whatever the order in which the threads, fewer than 2^64, take their atomic steps, at most `max`
-- of them hold a guard at a time, and the counter is the number of threads that hold one or are
-- between the increment and its test.
pub guards_within_limit :
    (max n : ℕ) (schedule : List ℕ)
    → n < 2 ^ 64
    → let s = run max schedule (new_limiter n) in
      (holders s.threads ≤ max) × (s.active ≡ busy s.threads)
guards_within_limit max n schedule fits =
    let h = run-IsLimited max n schedule (new_limiter n) fits (new-IsLimited max n) in
    (
      omega (arith, holders-winners max (run max schedule (new_limiter n)).threads, h.bounded),
      h.counted,
    )
