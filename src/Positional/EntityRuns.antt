-- ===== src/Positional/EntityRuns.antt =====
-- The run-length index answers like the column that it was built from (INV-FERR-082).
use ferratomic.Prelude.{
  ℕ, zero, suc, ◌+◌, ◌-◌, ◌^◌, ◌≤◌, ◌<◌, ◌≡◌, refl, sym, ap, ◌∙◌, inl, inr, Bool, true, false, none,
  some, List, [], ◌∷◌, ◌++◌, leb, ltb, if◌then◌else◌, length, get_elem?, replicate, arith,
  Bool-cases,
}
use ferratomic.Positional.EntityRle.{
  EntityRle, saturating_add, rle_loop, from_entities, last_or_zero, partition_point, total_datoms,
  first_of, group_of, entity_at_group, entity_at_position,
}
use native.Mathlib.Decide.{dec_lt}

le_false : (a b : ℕ) → b < a → leb a b ≡ false
le_false a b h = ground arith

lt_false : (a b : ℕ) → b ≤ a → ltb a b ≡ false
lt_false a b h = ground arith

if_same {ℓ} : {A : Type ℓ} (b : Bool) (x : A) → (if b then x else x) ≡ x
if_same true x = refl
if_same false x = refl

le_true : (a b : ℕ) → a ≤ b → leb a b ≡ true
le_true a b h = ground arith

point_here : (pos s : ℕ) (l : List ℕ) → pos < s → partition_point pos (s ∷ l) ≡ 0
point_here pos s l h = rw (le_false s pos h, partition_point) refl

point_next :
    (pos s : ℕ) (l : List ℕ) → s ≤ pos → partition_point pos (s ∷ l) ≡ suc (partition_point pos l)
point_next pos s l h = rw (le_true s pos h, partition_point) refl

module _ {ℓ} {A : Type ℓ} where
  replicate_more :
      (n : ℕ) (a : A) (l : List A) → replicate (n + 1) a ++ l ≡ replicate n a ++ (a ∷ l)
  replicate_more zero a l = refl
  replicate_more (suc n) a l =
      let e : suc n + 1 ≡ suc (n + 1) = omega arith in rw e (ap (λ r. a ∷ r) (replicate_more n a l))

  in_run : (n : ℕ) (a : A) (l : List A) (i : ℕ) → i < n → get_elem? (replicate n a ++ l) i ≡ some a
  in_run zero a l i h = absurd (omega arith)
  in_run (suc n) a l zero h = refl
  in_run (suc n) a l (suc i) h = in_run n a l i (omega arith)

  behind_run :
      (n : ℕ) (a : A) (l : List A) (i : ℕ)
      → n ≤ i
      → get_elem? (replicate n a ++ l) i ≡ get_elem? l (i - n)
  behind_run zero a l i h = ap (λ j. get_elem? l j) (omega arith)
  behind_run (suc n) a l zero h = absurd (omega arith)
  behind_run (suc n) a l (suc i) h =
      behind_run n a l i (omega arith) ∙ ap (λ j. get_elem? l j) (omega arith)

  get_elem?_past : (l : List A) (i : ℕ) → length l ≤ i → get_elem? l i ≡ none
  get_elem?_past [] i h = refl
  get_elem?_past (x ∷ l) zero h = absurd (omega arith)
  get_elem?_past (x ∷ l) (suc i) h = get_elem?_past l i (omega arith)

module _ {ℓ} {A : Type ℓ} (same : A → A → Bool) (sound : (a b : A) → same a b ≡ true → a ≡ b) where
  loop_stays :
      (e current : A) (n last : ℕ) (l : List A)
      → n + 1 < 2 ^ 32
      → same e current ≡ true
      → rle_loop same current n last (e ∷ l) ≡ rle_loop same current (n + 1) last l
  unfolding rle_loop
  loop_stays e current n last l h b =
      let fits : saturating_add n 1 ≡ n + 1 = omega arith in
      rw (b, rle_loop) (ap (λ m. rle_loop same current m last l) fits)

  -- A run that ends at `total`, and what the loop pushes after it.
  abbrev pushed : A → A → ℕ → ℕ → List A → EntityRle A
  pushed e current n total l = record {
    runs = (current, n) ∷ (rle_loop same e 1 total l).runs;
    prefix_sums = total ∷ (rle_loop same e 1 total l).prefix_sums;
  }

  loop_pushes :
      (e current : A) (n last : ℕ) (l : List A)
      → last + n < 2 ^ 32
      → same e current ≡ false
      → rle_loop same current n last (e ∷ l) ≡ pushed e current n (last + n) l
  unfolding rle_loop
  loop_pushes e current n last l h b =
      let fits : saturating_add last n ≡ last + n = omega arith in
      rw (b, rle_loop) (ap (λ m. pushed e current n m l) fits)

  loop_ends :
      (current : A) (n last : ℕ)
      → last + n < 2 ^ 32
      → rle_loop same current n last []
        ≡ (record { runs = (current, n) ∷ []; prefix_sums = (last + n) ∷ [] })
  unfolding rle_loop
  loop_ends current n last h =
      let fits : saturating_add last n ≡ last + n = omega arith in rw fits refl

  rle_loop_total :
      (current : A) (n last s : ℕ) (l : List A)
      → last + n + length l < 2 ^ 32
      → last_or_zero (s ∷ (rle_loop same current n last l).prefix_sums) ≡ last + n + length l
  rle_loop_total current n last s [] h = rw (loop_ends current n last (omega arith)) (omega arith)
  rle_loop_total current n last s (e ∷ l) h = elim (Bool-cases (same e current)) [
    | inl b ↦
        rw (loop_stays e current n last l (omega arith) b)
          (rle_loop_total current (n + 1) last s l (omega arith) ∙ omega arith)
    | inr b ↦
        rw (loop_pushes e current n last l (omega arith) b)
          (rle_loop_total e 1 (last + n) (last + n) l (omega arith) ∙ omega arith)
  ]

  rle_loop_entity :
      (current : A) (n last pos : ℕ) (l : List A)
      → last + n + length l < 2 ^ 32
      → last ≤ pos
      → pos < last + n + length l
      → let r = rle_loop same current n last l in
        first_of (get_elem? r.runs (partition_point pos r.prefix_sums))
        ≡ get_elem? (replicate n current ++ l) (pos - last)
  rle_loop_entity current n last pos [] h low high =
      rw (loop_ends current n last (omega arith), point_here pos (last + n) [] (omega arith))
        (sym (in_run n current [] (pos - last) (omega arith)))
  rle_loop_entity current n last pos (e ∷ l) h low high = elim (Bool-cases (same e current)) [
    | inl b ↦ rw (loop_stays e current n last l (omega arith) b) (
        rle_loop_entity current (n + 1) last pos l (omega arith) low (omega arith)
        ∙ ap (λ r. get_elem? r (pos - last))
            (replicate_more n current l
              ∙ ap (λ a. replicate n current ++ (a ∷ l)) (sym (sound e current b))))
    | inr b ↦ rw (loop_pushes e current n last l (omega arith) b) (elim (dec_lt pos (last + n)) [
      | yes c ↦
          rw (point_here pos (last + n) _ c)
            (sym (in_run n current (e ∷ l) (pos - last) (omega arith)))
      | no c ↦ rw (point_next pos (last + n) _ (omega arith)) (
          rle_loop_entity e 1 (last + n) pos l (omega arith) (omega arith) (omega arith)
          ∙ ap (λ i. get_elem? (e ∷ l) i) (omega arith)
          ∙ sym (behind_run n current (e ∷ l) (pos - last) (omega arith)))
    ])
  ]

  total_from_entities :
      (es : List A) → length es < 2 ^ 32 → total_datoms (from_entities same es) ≡ length es
  unfolding from_entities
  total_from_entities [] h = refl
  total_from_entities (e ∷ es) h = rle_loop_total e 1 0 0 es (omega arith) ∙ omega arith

  found_group :
      (r : EntityRle A) (pos : ℕ)
      → pos < 2 ^ 32
      → pos < total_datoms r
      → group_of r pos ≡ some (partition_point pos r.prefix_sums - 1)
  unfolding group_of
  found_group r pos small h =
      rw (lt_false 0xFFFF_FFFF pos (omega arith), le_false (total_datoms r) pos h) refl

  no_group : (r : EntityRle A) (pos : ℕ) → total_datoms r ≤ pos → group_of r pos ≡ none
  unfolding group_of
  no_group r pos h = rw (le_true (total_datoms r) pos h) (if_same (ltb 0xFFFF_FFFF pos) none)

  entity_inside :
      (es : List A) (pos : ℕ)
      → length es < 2 ^ 32
      → pos < length es
      → first_of (
          get_elem?
            (from_entities same es).runs
            (partition_point pos (from_entities same es).prefix_sums - 1))
        ≡ get_elem? es pos
  unfolding from_entities
  entity_inside [] pos h inside = absurd (omega arith)
  entity_inside (e ∷ es) pos h inside =
      let r : EntityRle A = rle_loop same e 1 0 es in
      let step : partition_point pos (0 ∷ r.prefix_sums) - 1 ≡ partition_point pos r.prefix_sums =
        ap (λ k. k - 1) (point_next pos 0 r.prefix_sums (omega arith)) ∙ omega arith in
      rw step (
        rle_loop_entity e 1 0 pos es (omega arith) (omega arith) (omega arith)
        ∙ ap (λ i. get_elem? (e ∷ es) i) (omega arith))

  -- The index of a column of fewer than 2^32 entities gives at each position what the column has
  -- there, and nothing behind its end; and its total is the length of the column.
  pub entity_at_position-from_entities :
      (es : List A) (pos : ℕ)
      → length es < 2 ^ 32
      → (entity_at_position (from_entities same es) pos ≡ get_elem? es pos)
        × (total_datoms (from_entities same es) ≡ length es)
  unfolding entity_at_position entity_at_group
  entity_at_position-from_entities es pos h = (
    elim (dec_lt pos (length es)) [
      | no past ↦
          rw (no_group (from_entities same es) pos (omega (arith, total_from_entities es h)))
            (sym (get_elem?_past es pos (omega arith)))
      | yes inside ↦
          rw
            (found_group (from_entities same es) pos (omega arith)
              (omega (arith, total_from_entities es h)))
            (entity_inside es pos h inside)
    ],
    total_from_entities es h,
  )
