-- ===== src/Store/Replay.antt =====
-- The LIVE lattice that a build and later datoms leave (query.rs, store.rs).
use ferratomic.Prelude.{
  ◌≡◌, refl, sym, ap, ◌∙◌, ◌⊎◌, inl, inr, Bool, true, false, Bool-cases, Option, none, some, List,
  [], ◌∷◌, Ordering, Ordering-cases,
}
use ferratomic.Prelude.Order.{eq_cases}
use ferratomic.Clock.TxId.{tx_cmp, tx_lt, tx_gt}
use ferratomic.Datom.Types.{Value, Datom}
use ferratomic.Store.Causal.{
  Key, Event, LiveMaps, key, event_of, LiveCausal, event, build_round, build_from,
  build_live_causal, LiveSet, should_update, live_apply, live_apply_all,
}
use ferratomic.Store.Events.{
  later, event-build_round, event-build_round_ne, event-record_event, event-record_event_ne,
}
use ferratomic.Store.Latest.{
  Datoms, In, Either, IsLatest, IsLatest-same, Only, lt_cases, later_ge, later-IsLatest,
  other-IsLatest,
}

module _ (m : LiveMaps) where
  -- `d` has been recorded in `c`, which gives `r`.
  pub record IsRound (d : Datom) (c r : LiveCausal m) : Type 0 where
    pub same_triple : event m (key d) d.value r ≡ later d (event m (key d) d.value c)
    pub other_triple :
        (k : Key) (v : Value)
        → (¬ (m.key_order.cmp k (key d) ≡ Ordering.eq))
          ⊎ (¬ (m.value_order.cmp v d.value ≡ Ordering.eq))
        → event m k v r ≡ event m k v c

  pub IsRound-IsLatest :
      (A : Datoms) (d : Datom) (k : Key) (v : Value) (c r : LiveCausal m)
      → IsRound d c r
      → IsLatest A k v (event m k v c)
      → IsLatest (Either A (Only d)) k v (event m k v r)
  IsRound-IsLatest A d k v c r round h = elim (eq_cases m.key_order k (key d)) [
    | inl ke ↦ elim (eq_cases m.value_order v d.value) [
      | inl ve ↦
          rw (ke, ve, round.same_triple)
            (later-IsLatest A d (event m (key d) d.value c) (rw (sym ke, sym ve) h))
      | inr vn ↦
          rw (round.other_triple k v (inr vn)) (
            other-IsLatest A d k v (event m k v c) (λ s. vn (rw (s.1) (m.value_order.cmp_refl v)))
              h)
    ]
    | inr kn ↦
        rw (round.other_triple k v (inl kn))
          (other-IsLatest A d k v (event m k v c) (λ s. kn (rw (s.0) (m.key_order.cmp_refl k))) h)
  ]

  build_round-IsRound : (d : Datom) (c : LiveCausal m) → IsRound d c (build_round m d c)
  build_round-IsRound d c = record {
    same_triple = event-build_round m d c;
    other_triple = λ k v. event-build_round_ne m d k v c;
  }

  existing_first :
      (d : Datom) (e : Option Event) → should_update m d.tx e ≡ true → later d e ≡ some (event_of d)
  unfolding should_update
  existing_first d none h = refl
  existing_first d (some (t, op)) h = elim (Ordering-cases (tx_cmp d.tx t)) [
    | inl e ↦ absurd (cc (h, ap {B = Bool} is_gt e))
    | inr (inl e) ↦ absurd (cc (h, ap {B = Bool} is_gt e))
    | inr (inr e) ↦ rw (tx_lt d.tx t e, later) refl
  ]
    where
      is_gt : Ordering → Bool
      is_gt Ordering.gt = true
      is_gt _ = false

  existing_kept : (d : Datom) (e : Option Event) → should_update m d.tx e ≡ false → later d e ≡ e
  unfolding should_update
  existing_kept d none h = cc
  existing_kept d (some (t, op)) h = elim (lt_cases (tx_cmp t d.tx)) [
    | inl e ↦ absurd (cc (h, tx_gt t d.tx e))
    | inr n ↦ later_ge d (t, op) n
  ]

  pub live_apply-IsRound :
      (d : Datom) (c : LiveCausal m) (live : LiveSet m) → IsRound d c (live_apply m d (c, live)).0
  unfolding live_apply
  live_apply-IsRound d c live =
      elim (Bool-cases (should_update m d.tx (event m (key d) d.value c))) [
        | inl e ↦
            rw (e, live_apply)
              record {
                same_triple = event-record_event m d c ∙ sym (existing_first d _ e);
                other_triple = λ k v. event-record_event_ne m d k v c;
              }
        | inr e ↦
            rw (e, live_apply)
              record { same_triple = sym (existing_kept d _ e); other_triple = λ k v h. refl }
      ]

  append_set :
      (A : Datoms) (d : Datom) (datoms : List Datom) (k : Key) (v : Value) (e : Option Event)
      → IsLatest (Either (Either A (Only d)) (In datoms)) k v e
      → IsLatest (Either A (In (d ∷ datoms))) k v e
  append_set A d datoms k v e h =
      IsLatest-same (Either (Either A (Only d)) (In datoms)) (Either A (In (d ∷ datoms))) k v e
        (λ x a. elim a [ inl (inl b) ↦ inl b | inl (inr b) ↦ inr (inl b) | inr b ↦ inr (inr b) ])
        (λ x a. elim a [ inl b ↦ inl (inl b) | inr (inl b) ↦ inl (inr b) | inr (inr b) ↦ inr b ]) h

  append_none :
      (A : Datoms) (k : Key) (v : Value) (e : Option Event)
      → IsLatest A k v e
      → IsLatest (Either A (In [])) k v e
  append_none A k v e h =
      IsLatest-same A (Either A (In [])) k v e (λ x a. inl a)
        (λ x a. elim a [ inl b ↦ b | inr b ↦ absurd b ]) h

  build_from-IsLatest :
      (A : Datoms) (datoms : List Datom) (k : Key) (v : Value) (c : LiveCausal m)
      → IsLatest A k v (event m k v c)
      → IsLatest (Either A (In datoms)) k v (event m k v (build_from m c datoms))
  unfolding build_from
  build_from-IsLatest A [] k v c h = append_none A k v (event m k v c) h
  build_from-IsLatest A (d ∷ datoms) k v c h = append_set A d datoms k v _ (
      build_from-IsLatest (Either A (Only d)) datoms k v (build_round m d c)
        (IsRound-IsLatest A d k v c (build_round m d c) (build_round-IsRound d c) h))

  pub build_live_causal-IsLatest :
      (datoms : List Datom) (k : Key) (v : Value)
      → IsLatest (In datoms) k v (event m k v (build_live_causal m datoms))
  unfolding build_live_causal
  build_live_causal-IsLatest datoms k v =
      IsLatest-same (Either (In []) (In datoms)) (In datoms) k v _
        (λ x a. elim a [ inl b ↦ absurd b | inr b ↦ b ]) (λ x a. inr a)
        (build_from-IsLatest (In []) datoms k v m.causal.empty
          (rw (m.causal.get-empty k) (λ d a. a.included)))

  pub live_apply_all-IsLatest :
      (A : Datoms) (new : List Datom) (k : Key) (v : Value) (c : LiveCausal m) (live : LiveSet m)
      → IsLatest A k v (event m k v c)
      → IsLatest (Either A (In new)) k v (event m k v (live_apply_all m new (c, live)).0)
  unfolding live_apply_all
  live_apply_all-IsLatest A [] k v c live h = append_none A k v (event m k v c) h
  live_apply_all-IsLatest A (d ∷ new) k v c live h =
      let next = live_apply m d (c, live) in
      append_set A d new k v _ (
        live_apply_all-IsLatest (Either A (Only d)) new k v next.0 next.1
          (IsRound-IsLatest A d k v c next.0 (live_apply-IsRound d c live) h))

  -- After a store is built from a set of datoms, and after more datoms are applied to it, the event
  -- of each triple is that of a datom of the triple that no datom of the triple is later than, and
  -- there is none only if no datom is about the triple.
  pub live_lattice-IsLatest :
      (datoms new : List Datom) (live : LiveSet m) (k : Key) (v : Value)
      → IsLatest (In datoms) k v (event m k v (build_live_causal m datoms))
        × IsLatest
            (Either (In datoms) (In new))
            k
            v
            (event m k v (live_apply_all m new (build_live_causal m datoms, live)).0)
  live_lattice-IsLatest datoms new live k v =
      let built = build_live_causal-IsLatest datoms k v in
      (built, live_apply_all-IsLatest (In datoms) new k v (build_live_causal m datoms) live built)
