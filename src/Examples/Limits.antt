-- ===== src/Examples/Limits.antt =====
-- The theorems about the write limiter and the positional arrays at concrete inputs, and runs of the operations.
use ferratomic.Prelude.{
  ℕ, ◌≤◌, ◌≡◌, refl, List, [], ◌∷◌, length, arith, true, some, ◌==◌, ==_iff, inl, inr,
}
use ferratomic.Prelude.Order.{nat_ord}
use ferratomic.Limiter.{idle, trying, holding, step_thread, run, new_limiter}
use ferratomic.Limiter.Bound.{holders, busy, guards_within_limit}
use ferratomic.Positional.Merge.{merge_sort_dedup}
use ferratomic.Positional.MergeLaws.{IsCanonical, either, member, merge_sort_dedup_union}
use ferratomic.Positional.EntityRle.{
  from_entities, rle_loop, group_range, entity_at_position, total_datoms,
}
use ferratomic.Datom.Types.{Op, assert, retract}
use ferratomic.Positional.Live.{live_positions_from_sorted_runs, live_run}
use ferratomic.Positional.LiveLaws.{latest_asserts, live_positions-latest_asserts}
use ferratomic.Positional.EntityRuns.{entity_at_position-from_entities}

-- Three threads and a limit of one: while two are refused the counter exceeds the limit.
limiter_runs :
    run 1 (0 ∷ 1 ∷ 0 ∷ 2 ∷ 1 ∷ []) (new_limiter 3)
    ≡ record { active = 2; threads = holding ∷ idle ∷ trying 2 ∷ [] }
unfolding run step_thread
limiter_runs = refl

guards_within_limit_example :
    let s = run 1 (0 ∷ 1 ∷ 0 ∷ 2 ∷ 1 ∷ []) (new_limiter 3) in
    (holders s.threads ≤ 1) × (s.active ≡ busy s.threads)
guards_within_limit_example = guards_within_limit 1 3 (0 ∷ 1 ∷ 0 ∷ 2 ∷ 1 ∷ []) (omega arith)

abbrev ones : List ℕ
ones = 1 ∷ 4 ∷ 6 ∷ []

abbrev twos : List ℕ
twos = 2 ∷ 4 ∷ []

merge_runs : merge_sort_dedup nat_ord ones twos ≡ 1 ∷ 2 ∷ 4 ∷ 6 ∷ []
unfolding merge_sort_dedup
merge_runs = refl

ones-IsCanonical : IsCanonical nat_ord ones
ones-IsCanonical = ((refl, (refl, tt)), ((refl, tt), (tt, tt)))

twos-IsCanonical : IsCanonical nat_ord twos
twos-IsCanonical = ((refl, tt), (tt, tt))

merge_sort_dedup_union_example :
    IsCanonical nat_ord (merge_sort_dedup nat_ord ones twos)
    × ((i : ℕ)
        → member nat_ord i (merge_sort_dedup nat_ord ones twos)
          ≡ either (member nat_ord i ones) (member nat_ord i twos))
    × (merge_sort_dedup nat_ord ones twos ≡ merge_sort_dedup nat_ord twos ones)
    × (merge_sort_dedup nat_ord (merge_sort_dedup nat_ord ones twos) ones
        ≡ merge_sort_dedup nat_ord ones (merge_sort_dedup nat_ord twos ones))
    × (merge_sort_dedup nat_ord ones ones ≡ ones)
    × (length ones ≤ length (merge_sort_dedup nat_ord ones twos))
    × (length twos ≤ length (merge_sort_dedup nat_ord ones twos))
merge_sort_dedup_union_example =
    merge_sort_dedup_union nat_ord ones twos ones ones-IsCanonical twos-IsCanonical ones-IsCanonical

abbrev column : List ℕ
column = 5 ∷ 5 ∷ 8 ∷ 9 ∷ 9 ∷ 9 ∷ []

column_index :
    from_entities ◌==◌ column
    ≡ record { runs = (5, 2) ∷ (8, 1) ∷ (9, 3) ∷ []; prefix_sums = 0 ∷ 2 ∷ 3 ∷ 6 ∷ [] }
unfolding from_entities rle_loop
column_index = refl

column_range : group_range (from_entities ◌==◌ column) 2 ≡ some (3, 6)
unfolding from_entities rle_loop group_range
column_range = refl

column_sound : (a b : ℕ) → (a == b) ≡ true → a ≡ b
column_sound a b h = (==_iff a b).0 h

entity_at_position-from_entities_example :
    (entity_at_position (from_entities ◌==◌ column) 4 ≡ some 9)
    × (total_datoms (from_entities ◌==◌ column) ≡ 6)
entity_at_position-from_entities_example =
    entity_at_position-from_entities ◌==◌ column_sound column 4 (omega arith)

abbrev events : List (ℕ × Op)
events = (3, assert) ∷ (3, retract) ∷ (4, retract) ∷ (4, assert) ∷ (7, assert) ∷ []

events_live : live_positions_from_sorted_runs ◌==◌ events ≡ 3 ∷ 4 ∷ []
unfolding live_positions_from_sorted_runs live_run
events_live = refl

live_positions-latest_asserts_example :
    live_positions_from_sorted_runs ◌==◌ events ≡ latest_asserts nat_ord ◌==◌ ==_iff 0 events
live_positions-latest_asserts_example =
    live_positions-latest_asserts nat_ord ◌==◌ ==_iff events (omega arith) (
      (inr refl, (inl refl, (inl refl, (inl refl, tt)))),
      (
        (inl refl, (inl refl, (inl refl, tt))),
        ((inr refl, (inl refl, tt)), ((inl refl, tt), (tt, tt))),
      ),
    )
