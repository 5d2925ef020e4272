-- ===== src/Positional/EntityRle.antt =====
-- The run-length index of entities (entity_rle.rs). The equality of entity identifiers is the
-- parameter `same`. Positions are `u32`.
use ferratomic.Prelude.{
  ℕ, suc, ◌+◌, ◌-◌, min, Bool, true, false, Option, none, some, List, [], ◌∷◌, leb, ltb,
  if◌then◌else◌, length, get_or, get_elem?,
}

pub record EntityRle {ℓ} (A : Type ℓ) : Type ℓ where
  pub runs : List (A × ℕ)
  pub prefix_sums : List ℕ

-- `saturating_add` on `u32`
abbrev pub saturating_add : ℕ → ℕ → ℕ
saturating_add a b = min (a + b) 0xFFFF_FFFF

module _ {ℓ} {A : Type ℓ} (same : A → A → Bool) where
  -- The loop of `from_entities`, from the current entity and the length of its run so far, where
  -- `last` is the last prefix sum: the runs and prefix sums that are pushed from there on.
  abbrev pub push_run : A → ℕ → ℕ → EntityRle A → EntityRle A
  push_run entity run_len last rest = record {
    runs = (entity, run_len) ∷ rest.runs;
    prefix_sums = saturating_add last run_len ∷ rest.prefix_sums;
  }

  unfoldable pub rle_loop : A → ℕ → ℕ → List A → EntityRle A
  rle_loop current run_len last [] =
      push_run current run_len last (record { runs = []; prefix_sums = [] })
  rle_loop current run_len last (entity ∷ entities) = elim (same entity current) [
    | true ↦ rle_loop current (saturating_add run_len 1) last entities
    | false ↦
        push_run current run_len last (rle_loop entity 1 (saturating_add last run_len) entities)
  ]

  unfoldable pub from_entities : List A → EntityRle A
  from_entities [] = record { runs = []; prefix_sums = 0 ∷ [] }
  from_entities (entity ∷ entities) =
      let rest = rle_loop entity 1 0 entities in
      record { runs = rest.runs; prefix_sums = 0 ∷ rest.prefix_sums }

-- `last().copied().unwrap_or(0)`
abbrev pub last_or_zero : List ℕ → ℕ
last_or_zero [] = 0
last_or_zero (n ∷ []) = n
last_or_zero (n ∷ m ∷ l) = last_or_zero (m ∷ l)

-- `partition_point(|&s| s <= pos)` on an ascending array: how many of its numbers are at most `pos`.
-- The library's binary search and this scan agree there.
abbrev pub partition_point : ℕ → List ℕ → ℕ
partition_point pos [] = 0
partition_point pos (s ∷ l) = elim (leb s pos) [ true ↦ suc (partition_point pos l) | false ↦ 0 ]

module _ {ℓ} {A : Type ℓ} where
  abbrev pub group_count : EntityRle A → ℕ
  group_count r = length r.runs

  abbrev pub total_datoms : EntityRle A → ℕ
  total_datoms r = last_or_zero r.prefix_sums

  unfoldable pub group_of : EntityRle A → ℕ → Option ℕ
  group_of r position =
      if ltb 0xFFFF_FFFF position
      then none
      else if leb (total_datoms r) position
      then none
      else some (partition_point position r.prefix_sums - 1)

  unfoldable pub group_range : EntityRle A → ℕ → Option (ℕ × ℕ)
  group_range r group_idx =
      if leb (length r.runs) group_idx
      then none
      else some (get_or r.prefix_sums group_idx 0, get_or r.prefix_sums (group_idx + 1) 0)

  abbrev pub first_of : Option (A × ℕ) → Option A
  first_of none = none
  first_of (some (entity, n)) = some entity

  unfoldable pub entity_at_group : EntityRle A → ℕ → Option A
  entity_at_group r group_idx = first_of (get_elem? r.runs group_idx)

  abbrev pub and_then : EntityRle A → Option ℕ → Option A
  and_then r none = none
  and_then r (some g) = entity_at_group r g

  unfoldable pub entity_at_position : EntityRle A → ℕ → Option A
  entity_at_position r pos = and_then r (group_of r pos)
