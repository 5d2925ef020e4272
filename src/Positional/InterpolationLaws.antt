-- ===== src/Positional/InterpolationLaws.antt =====
-- Interpolation search finds what a sorted array has, and ends (INV-FERR-077).
use ferratomic.Prelude.{
  ℕ, zero, suc, ◌+◌, ◌-◌, ◌≤◌, ◌<◌, ◌≡◌, refl, inl, inr, none, some, List, [], ◌∷◌, Ordering,
  Ordering-cases, Bool-cases, true, false, leb, ltb, ◌==◌, length, get_elem?, arith,
}
use native.Mathlib.Decide.{dec_lt}
use ferratomic.Prelude.Order.{Ord}
use ferratomic.Datom.Types.{Value, Datom}
use ferratomic.Positional.Eytzinger.{Search, found, absent, out_of_bounds, out_of_fuel}
use ferratomic.Positional.EytzingerOrder.{rank_at, rank-some, get_elem_inside}
use ferratomic.Positional.Interpolation.{
  EavtKey, reverse, entity_u64, estimate, cmp_datom, probe, turn, interpolate, interpolation_search,
}

estimate_between :
    (lo_val hi_val key_val lo hi : ℕ)
    → lo ≤ hi
    → (lo ≤ estimate lo_val hi_val key_val lo hi) × (estimate lo_val hi_val key_val lo hi ≤ hi)
unfolding estimate
estimate_between lo_val hi_val key_val lo hi h = elim (Bool-cases (hi_val == lo_val)) [
  | inl b ↦ rw (b, estimate) (omega arith, omega arith)
  | inr b ↦ rw (b, estimate) (omega arith, omega arith)
]

module _ (values : Ord Value) (canonical : List Datom) (key : EavtKey) where
  -- How a datom compares with the key
  abbrev pub against : Datom → Ordering
  against d = reverse (cmp_datom values key d)

  abbrev pub level : ℕ → ℕ
  level i = rank_at canonical against i

  -- The array is sorted: against the key it is first less, then equal, then greater.
  abbrev pub IsAscending : Type 0
  IsAscending = (i j : ℕ) → i ≤ j → j < length canonical → level i ≤ level j

  -- The entities ascend by their first eight bytes.
  abbrev pub PrefixAscending : Type 0
  PrefixAscending =
      (i j : ℕ) (d e : Datom)
      → i ≤ j
      → get_elem? canonical i ≡ some d
      → get_elem? canonical j ≡ some e
      → entity_u64 d.entity ≤ entity_u64 e.entity

  -- What a search from `lo` to `hi` has to return.
  abbrev pub FindsBetween : ℕ → ℕ → Search Datom → Type 0
  FindsBetween lo hi (found d) =
      (i : ℕ) × (get_elem? canonical i ≡ some d) × (cmp_datom values key d ≡ Ordering.eq)
  FindsBetween lo hi absent = (i : ℕ) → lo ≤ i → i ≤ hi → ¬ (level i ≡ 1)
  FindsBetween lo hi out_of_bounds = ⊥
  FindsBetween lo hi out_of_fuel = ⊥

  -- A search of a part serves for the whole when nothing else is equal.
  widen :
      (lo hi a b : ℕ) (s : Search Datom)
      → ((i : ℕ) → lo ≤ i → i ≤ hi → level i ≡ 1 → (a ≤ i) × (i ≤ b))
      → FindsBetween a b s
      → FindsBetween lo hi s
  widen lo hi a b (found d) f h = h
  widen lo hi a b absent f h = λ i l u one. let (p, q) = f i l u one in h i p q one
  widen lo hi a b out_of_bounds f h = h
  widen lo hi a b out_of_fuel f h = h

  eq_of_reverse : (o : Ordering) → reverse o ≡ Ordering.eq → o ≡ Ordering.eq
  eq_of_reverse Ordering.lt h = cc
  eq_of_reverse Ordering.eq h = refl
  eq_of_reverse Ordering.gt h = cc

  probe_between :
      (lo hi : ℕ)
      → PrefixAscending
      → lo ≤ hi
      → hi < length canonical
      → (pos : ℕ) × (probe key lo hi (get_elem? canonical lo) (get_elem? canonical hi) ≡ some pos)
        × (lo ≤ pos)
        × (pos ≤ hi)
  unfolding probe
  probe_between lo hi p h k =
      let (low, e) = get_elem_inside canonical against canonical lo (omega arith) in
      let (high, f) = get_elem_inside canonical against canonical hi k in
      let ascending = p lo hi low high h e f in
      let sound : ltb (entity_u64 high.entity) (entity_u64 low.entity) ≡ false = ground arith in
      let pos =
        estimate (entity_u64 low.entity) (entity_u64 high.entity) (entity_u64 key.entity) lo hi in
      let (l, u) =
        estimate_between (entity_u64 low.entity) (entity_u64 high.entity) (entity_u64 key.entity) lo
          hi h in
      (pos, rw (e, f, probe) (rw (sound, probe) refl), l, u)

  turn-FindsBetween :
      (lo hi pos : ℕ) (right left : Search Datom)
      → IsAscending
      → lo ≤ pos
      → pos ≤ hi
      → hi < length canonical
      → FindsBetween (pos + 1) hi right
      → (1 ≤ pos → FindsBetween lo (pos - 1) left)
      → FindsBetween lo hi (turn values canonical key pos (get_elem? canonical pos) right left)
  unfolding turn
  turn-FindsBetween lo hi pos right left asc l u inside h k =
      let (d, e) = get_elem_inside canonical against canonical pos (omega arith) in
      elim (Ordering-cases (against d)) [
        | inl c ↦
            let least = rank-some canonical against pos d Ordering.lt e c in
            rw (e, turn, c)
              (widen lo hi (pos + 1) hi right
                (λ i a b one. elim (dec_lt pos i) [
                  | yes above ↦ (omega arith, b)
                  | no n ↦ absurd (omega (arith, one, least, asc i pos (omega arith) (omega arith)))
                ])
                h)
        | inr (inl c) ↦ rw (e, turn, c) (pos, e, eq_of_reverse (cmp_datom values key d) c)
        | inr (inr c) ↦
            let most = rank-some canonical against pos d Ordering.gt e c in
            let below : (i : ℕ) → i ≤ hi → level i ≡ 1 → i < pos = λ i b one. elim (dec_lt i pos) [
              | yes lower ↦ lower
              | no n ↦ absurd (omega (arith, one, most, asc pos i (omega arith) (omega arith)))
            ] in
            elim (Bool-cases (pos == 0)) [
              | inl z ↦
                  let first : pos ≡ 0 = ground arith in
                  rw (e, turn, c, z) (λ i a b one. absurd (omega (arith, first, below i b one)))
              | inr z ↦
                  let some_left : 1 ≤ pos = ground arith in
                  rw (e, turn, c, z)
                    (widen lo hi lo (pos - 1) left (λ i a b one. (a, omega (arith, below i b one)))
                      (k some_left))
            ]
      ]

  interpolate_past :
      (fuel lo hi : ℕ) → hi < lo → interpolate values canonical key (suc fuel) lo hi ≡ absent
  unfolding interpolate
  interpolate_past fuel lo hi h = ground arith

  interpolate_at :
      (fuel lo hi pos : ℕ)
      → lo ≤ hi
      → probe key lo hi (get_elem? canonical lo) (get_elem? canonical hi) ≡ some pos
      → interpolate values canonical key (suc fuel) lo hi
        ≡ turn values canonical key pos
            (get_elem? canonical pos)
            (interpolate values canonical key fuel (pos + 1) hi)
            (interpolate values canonical key fuel lo (pos - 1))
  unfolding interpolate
  interpolate_at fuel lo hi pos h e =
      let inside : leb lo hi ≡ true = ground arith in rw (inside, e, interpolate) refl

  past-FindsBetween :
      (fuel lo hi : ℕ)
      → hi < lo
      → FindsBetween lo hi (interpolate values canonical key (suc fuel) lo hi)
  past-FindsBetween fuel lo hi h =
      rw (interpolate_past fuel lo hi h) (λ i l u one. absurd (omega (arith, l, u, h)))

  interpolate-FindsBetween :
      (fuel lo hi : ℕ)
      → IsAscending
      → PrefixAscending
      → hi < length canonical
      → hi + 1 ≤ fuel + lo
      → FindsBetween lo hi (interpolate values canonical key (suc fuel) lo hi)
  interpolate-FindsBetween zero lo hi asc p inside enough =
      past-FindsBetween zero lo hi (omega arith)
  interpolate-FindsBetween (suc fuel) lo hi asc p inside enough = elim (dec_lt hi lo) [
    | yes past ↦ past-FindsBetween (suc fuel) lo hi past
    | no n ↦
        let (pos, e, l, u) = probe_between lo hi p (omega arith) inside in
        rw (interpolate_at (suc fuel) lo hi pos (omega arith) e) (
          turn-FindsBetween lo hi pos _ _ asc l u inside
            (interpolate-FindsBetween fuel (pos + 1) hi asc p inside (omega arith))
            (λ one. interpolate-FindsBetween fuel lo (pos - 1) asc p (omega arith) (omega arith)))
  ]

  search_nonempty :
      1 ≤ length canonical
      → interpolation_search values canonical key
        ≡ interpolate values canonical key (suc (length canonical)) 0 (length canonical - 1)
  unfolding interpolation_search
  search_nonempty h = ground arith

  search_nothing : length canonical ≡ 0 → interpolation_search values canonical key ≡ absent
  unfolding interpolation_search
  search_nothing h = ground arith

  get_elem_outside : (l : List Datom) (i : ℕ) → length l ≤ i → get_elem? l i ≡ none
  get_elem_outside [] i h = refl
  get_elem_outside (x ∷ l) zero h = absurd (omega arith)
  get_elem_outside (x ∷ l) (suc i) h = get_elem_outside l i (omega arith)

  level_outside : (i : ℕ) → length canonical ≤ i → level i ≡ 3
  level_outside i h = rw (get_elem_outside canonical i h) refl

  inside_of : (i : ℕ) → level i ≡ 1 → i ≤ length canonical - 1
  inside_of i one = elim (dec_lt i (length canonical)) [
    | yes h ↦ omega arith
    | no n ↦ absurd (omega (arith, one, level_outside i (omega arith)))
  ]

  -- On an array that ascends against the key and by the first eight bytes of the entities, the search
  -- ends within the fuel and without a panic: it returns a datom of the array that equals the key, or
  -- reports that the array has none.
  pub interpolation_search-FindsBetween :
      IsAscending
      → PrefixAscending
      → FindsBetween 0 (length canonical) (interpolation_search values canonical key)
  interpolation_search-FindsBetween asc p = elim (dec_lt 0 (length canonical)) [
    | no n ↦
        rw (search_nothing (omega arith))
          (λ i l u one. absurd (omega (arith, one, level_outside i (omega arith))))
    | yes h ↦ rw (search_nonempty h) (
        widen 0 (length canonical) 0 (length canonical - 1) _
          (λ i l u one. (omega arith, inside_of i one))
          (interpolate-FindsBetween (length canonical) 0 (length canonical - 1) asc p (omega arith)
            (omega arith)))
  ]
