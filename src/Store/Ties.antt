-- ===== src/Store/Ties.antt =====
-- An assertion and a retraction of one triple with one transaction identifier (query.rs, merge.rs,
-- store.rs, live.rs).
use ferratomic.Prelude.{◌≡◌, refl, ap, ◌∙◌, Bool, true, Option, none, some, [], ◌∷◌, Ordering}
use ferratomic.Prelude.Order.{Ord}
use ferratomic.Clock.TxId.{tx_refl}
use ferratomic.Datom.Types.{assert, retract, Datom}
use ferratomic.Positional.Live.{
  Group, live_run, live_positions_from_sorted_runs, live_positions_kernel,
}
use ferratomic.Positional.Merge.{merge_sort_dedup}
use ferratomic.Store.OrdMap.{united}
use ferratomic.Store.Causal.{
  LiveMaps, key, event_of, max_event, LiveCausal, LiveSet, event, build_round, build_from,
  build_live_causal, merge_causal, live_apply, live_apply_all, Event,
}
use ferratomic.Store.Events.{later, event-build_round, event-merge_causal}
use ferratomic.Store.Replay.{live_apply-IsRound}

-- The assertion and the retraction of a datom's triple at its time.
abbrev pub asserted_at : Datom → Datom
asserted_at d = record d { op = assert }

abbrev pub retracted_at : Datom → Datom
retracted_at d = record d { op = retract }

module _ (m : LiveMaps) where
  event-build_one :
      (d : Datom) → event m (key d) d.value (build_live_causal m (d ∷ [])) ≡ some (event_of d)
  unfolding build_live_causal build_from
  event-build_one d = event-build_round m d m.causal.empty ∙ rw (m.causal.get-empty (key d)) refl

  later_tie : (d : Datom) → later (retracted_at d) (some (d.tx, assert)) ≡ some (d.tx, assert)
  later_tie d = rw (tx_refl d.tx, later) refl

  event-build_two :
      (d : Datom)
      → event m (key d) d.value (build_live_causal m (asserted_at d ∷ retracted_at d ∷ []))
        ≡ some (d.tx, assert)
  unfolding build_live_causal build_from
  event-build_two d =
      event-build_round m (retracted_at d) (build_round m (asserted_at d) m.causal.empty)
      ∙ ap (later (retracted_at d)) (event-build_one (asserted_at d))
      ∙ later_tie d

  -- A transaction stamps its datoms with one identifier and applies them in its order.
  apply_one :
      (d : Datom) (c : LiveCausal m) (live : LiveSet m) (e : Option Event)
      → event m (key d) d.value c ≡ e
      → event m (key d) d.value (live_apply m d (c, live)).0 ≡ later d e
  apply_one d c live e h =
      let round = live_apply-IsRound m d c live in round.same_triple ∙ ap (later d) h

  event-apply_two :
      (d : Datom) (live : LiveSet m)
      → event m
          (key d)
          d.value
          (live_apply_all m (retracted_at d ∷ asserted_at d ∷ []) (m.causal.empty, live)).0
        ≡ some (d.tx, retract)
  unfolding live_apply_all
  event-apply_two d live =
      let first = live_apply m (retracted_at d) (m.causal.empty, live) in
      apply_one (asserted_at d) first.0 first.1 (some (d.tx, retract))
        (apply_one (retracted_at d) m.causal.empty live none (rw (m.causal.get-empty (key d)) refl))
      ∙ rw (tx_refl d.tx, later) refl

  max_event_tie : (d : Datom) → max_event (d.tx, assert) (d.tx, retract) ≡ (d.tx, retract)
  unfolding max_event
  max_event_tie d = rw (tx_refl d.tx, max_event) refl

  event-merge_two :
      (d : Datom)
      → event m (key d) d.value (
          merge_causal m
            (build_live_causal m (asserted_at d ∷ []))
            (build_live_causal m (retracted_at d ∷ [])))
        ≡ some (d.tx, retract)
  event-merge_two d =
      event-merge_causal m (key d) d.value _ _
      ∙ rw (event-build_one (asserted_at d), event-build_one (retracted_at d), united)
          (ap some (max_event_tie d))

-- A run of an assertion and a retraction has no live position.
no_live_position :
    (same : Group → Group → Bool) (d : Datom)
    → ((g : Group) → same g g ≡ true)
    → live_positions_kernel same (asserted_at d ∷ retracted_at d ∷ []) ≡ []
unfolding live_positions_kernel live_positions_from_sorted_runs live_run
no_live_position same d h =
    rw
      (
        h ((d.entity, d.attribute), d.value),
        live_positions_kernel,
        live_positions_from_sorted_runs,
        live_run,
      )
      refl

merge_two :
    (o : Ord Datom) (d : Datom)
    → o.cmp (asserted_at d) (retracted_at d) ≡ Ordering.lt
    → merge_sort_dedup o (asserted_at d ∷ []) (retracted_at d ∷ [])
      ≡ asserted_at d ∷ retracted_at d ∷ []
unfolding merge_sort_dedup
merge_two o d h = rw (h, merge_sort_dedup) refl

-- When an assertion and the retraction of its triple have one transaction identifier, and the
-- assertion sorts first, then the lattice built from the two has the assertion as the event of the
-- triple; the merge of the lattices of each has the retraction, as has the lattice that a store gets
-- when it applies the retraction before the assertion; and the array of the two has no live position.
pub tie_divides_views :
    (m : LiveMaps) (o : Ord Datom) (same : Group → Group → Bool) (d : Datom) (live : LiveSet m)
    → ((g : Group) → same g g ≡ true)
    → o.cmp (asserted_at d) (retracted_at d) ≡ Ordering.lt
    → (event m
          (key d)
          d.value
          (build_live_causal m (merge_sort_dedup o (asserted_at d ∷ []) (retracted_at d ∷ [])))
        ≡ some (d.tx, assert))
      × (event m (key d) d.value (
            merge_causal m
              (build_live_causal m (asserted_at d ∷ []))
              (build_live_causal m (retracted_at d ∷ [])))
          ≡ some (d.tx, retract))
      × (event m
            (key d)
            d.value
            (live_apply_all m (retracted_at d ∷ asserted_at d ∷ []) (m.causal.empty, live)).0
          ≡ some (d.tx, retract))
      × (live_positions_kernel same (merge_sort_dedup o (asserted_at d ∷ []) (retracted_at d ∷ []))
          ≡ [])
tie_divides_views m o same d live r h =
    rw (merge_two o d h) (
      event-build_two m d,
      event-merge_two m d,
      event-apply_two m d live,
      no_live_position same d r,
    )
