-- ===== src/Store/Homomorphism.antt =====
-- Merging LIVE lattices is building the lattice of the merged datoms (merge.rs, query.rs).
use ferratomic.Prelude.{
  ◌≡◌, refl, sym, ap, ◌∙◌, inl, inr, Option, none, some, List, [], ◌∷◌, Ordering-cases,
}
use ferratomic.Prelude.Order.{Ord}
use ferratomic.Clock.TxId.{TxId, tx_cmp, tx_lt, tx_eq, tx_trans}
use ferratomic.Datom.Types.{Value, Op, assert, retract, Datom}
use ferratomic.Positional.Merge.{merge_sort_dedup}
use ferratomic.Store.OrdMap.{united}
use ferratomic.Store.Causal.{
  Key, Event, LiveMaps, key, event_of, max_op, max_event, event, build_live_causal, merge_causal,
}
use ferratomic.Store.Events.{event-merge_causal}
use ferratomic.Store.Latest.{
  Datoms, In, Either, IsAbout, IsLatest, IsLatest-same, IsAbout-left, IsAbout-right, IsAbout-split,
}
use ferratomic.Store.Replay.{build_live_causal-IsLatest}

-- No two datoms of the set differ in their operations alone.
abbrev pub OneOp : Datoms → Type 0
OneOp A = (x y : Datom) → A x → A y → key x ≡ key y → x.value ≡ y.value → x.tx ≡ y.tx → x.op ≡ y.op

-- Under one operation each, the latest event is unique.
IsLatest-unique :
    (A : Datoms) (k : Key) (v : Value) (e f : Option Event)
    → OneOp A
    → IsLatest A k v e
    → IsLatest A k v f
    → e ≡ f
IsLatest-unique A k v none none u h g = refl
IsLatest-unique A k v none (some f) u h ((w, a, same), g) = absurd (h w a)
IsLatest-unique A k v (some e) none u ((w, a, same), h) g = absurd (g w a)
IsLatest-unique A k v (some (s, p)) (some (t, q)) u ((w, a, w_eq), h) ((x, b, x_eq), g) =
    let s_eq : w.tx ≡ s = ap (λ y. y.0) w_eq in
    let t_eq : x.tx ≡ t = ap (λ y. y.0) x_eq in
    let times : s ≡ t = elim (Ordering-cases (tx_cmp s t)) [
      | inl lt ↦ absurd (h x b (rw t_eq lt))
      | inr (inl eq) ↦ tx_eq s t eq
      | inr (inr gt) ↦ absurd (g w a (rw s_eq (tx_lt s t gt)))
    ] in
    let ops : w.op ≡ x.op =
      u w x a.included b.included (a.key_eq ∙ sym b.key_eq) (a.value_eq ∙ sym b.value_eq)
        (s_eq ∙ times ∙ sym t_eq) in
    let p_eq : w.op ≡ p = ap (λ y. y.1) w_eq in let q_eq : x.op ≡ q = ap (λ y. y.1) x_eq in cc

-- The merge has the datoms of both arrays.
module _ (o : Ord Datom) where
  In-merge_left :
      (a b : List Datom) (x : Datom) → In (merge_sort_dedup o a b) x → Either (In a) (In b) x
  unfolding merge_sort_dedup
  In-merge_left [] b x h = inr h
  In-merge_left (c ∷ a) [] x h = inl h
  In-merge_left (c ∷ a) (d ∷ b) x h = elim (Ordering-cases (o.cmp c d)) [
    | inl e ↦ elim (rw (e, merge_sort_dedup, In) at h) [
      | inl k ↦ inl (inl k)
      | inr k ↦ elim (In-merge_left a (d ∷ b) x k) [ inl l ↦ inl (inr l) | inr l ↦ inr l ]
    ]
    | inr (inl e) ↦ elim (rw (e, merge_sort_dedup, In) at h) [
      | inl k ↦ inl (inl k)
      | inr k ↦ elim (In-merge_left a b x k) [ inl l ↦ inl (inr l) | inr l ↦ inr (inr l) ]
    ]
    | inr (inr e) ↦ elim (rw (e, merge_sort_dedup, In) at h) [
      | inl k ↦ inr (inl k)
      | inr k ↦ elim (In-merge_left (c ∷ a) b x k) [ inl l ↦ inl l | inr l ↦ inr (inr l) ]
    ]
  ]

  In-merge_right :
      (a b : List Datom) (x : Datom) → Either (In a) (In b) x → In (merge_sort_dedup o a b) x
  unfolding merge_sort_dedup
  In-merge_right [] b x (inl n) = absurd n
  In-merge_right [] b x (inr h) = h
  In-merge_right (c ∷ a) [] x (inl h) = h
  In-merge_right (c ∷ a) [] x (inr n) = absurd n
  In-merge_right (c ∷ a) (d ∷ b) x h = elim (Ordering-cases (o.cmp c d)) [
    | inl e ↦
        rw (e, merge_sort_dedup, In)
          (elim h [
            | inl (inl k) ↦ inl k
            | inl (inr k) ↦ inr (In-merge_right a (d ∷ b) x (inl k))
            | inr k ↦ inr (In-merge_right a (d ∷ b) x (inr k))
          ])
    | inr (inl e) ↦
        rw (e, merge_sort_dedup, In)
          (elim h [
            | inl (inl k) ↦ inl k
            | inl (inr k) ↦ inr (In-merge_right a b x (inl k))
            | inr (inl k) ↦ inl (k ∙ sym (o.eq_of_cmp c d e))
            | inr (inr k) ↦ inr (In-merge_right a b x (inr k))
          ])
    | inr (inr e) ↦
        rw (e, merge_sort_dedup, In)
          (elim h [
            | inl k ↦ inr (In-merge_right (c ∷ a) b x (inl k))
            | inr (inl k) ↦ inl k
            | inr (inr k) ↦ inr (In-merge_right (c ∷ a) b x (inr k))
          ])
  ]

-- The greater of two latest events is the latest of both sets.
module _ (A B : Datoms) (k : Key) (v : Value) where
  from_left :
      (e : Event)
      → ((d : Datom) × IsAbout A k v d × (event_of d ≡ e))
      → (d : Datom) × IsAbout (Either A B) k v d × (event_of d ≡ e)
  from_left e (d, a, same) = (d, IsAbout-left A B k v d a, same)

  from_right :
      (e : Event)
      → ((d : Datom) × IsAbout B k v d × (event_of d ≡ e))
      → (d : Datom) × IsAbout (Either A B) k v d × (event_of d ≡ e)
  from_right e (d, b, same) = (d, IsAbout-right A B k v d b, same)

  max_op-IsLatest :
      (t : TxId) (p q : Op)
      → ((d : Datom) × IsAbout A k v d × (event_of d ≡ (t, p)))
      → ((d : Datom) × IsAbout B k v d × (event_of d ≡ (t, q)))
      → (d : Datom) × IsAbout (Either A B) k v d × (event_of d ≡ (t, max_op p q))
  max_op-IsLatest t assert q a b = from_right (t, q) b
  max_op-IsLatest t retract q a b = from_left (t, retract) a

  united-IsLatest :
      (e f : Option Event)
      → IsLatest A k v e
      → IsLatest B k v f
      → IsLatest (Either A B) k v (united max_event e f)
  unfolding max_event
  united-IsLatest none none h g =
      λ d x. elim (IsAbout-split A B k v d x) [ inl a ↦ h d a | inr b ↦ g d b ]
  united-IsLatest none (some f) h (w, g) = (
    from_right f w,
    λ d x. elim (IsAbout-split A B k v d x) [ inl a ↦ absurd (h d a) | inr b ↦ g d b ],
  )
  united-IsLatest (some e) none (w, h) g = (
    from_left e w,
    λ d x. elim (IsAbout-split A B k v d x) [ inl a ↦ h d a | inr b ↦ absurd (g d b) ],
  )
  united-IsLatest (some (s, p)) (some (t, q)) (w, h) (x, g) = elim (Ordering-cases (tx_cmp s t)) [
    | inl e ↦
        rw (e, max_event)
          (
            from_right (t, q) x,
            λ d y. elim (IsAbout-split A B k v d y) [
              | inl a ↦ λ lt. h d a (tx_trans s t d.tx e lt)
              | inr b ↦ g d b
            ],
          )
    | inr (inl e) ↦
        let same : s ≡ t = tx_eq s t e in
        rw (e, max_event)
          (
            max_op-IsLatest t p q (rw (sym same) w) x,
            λ d y. elim (IsAbout-split A B k v d y) [
              | inl a ↦ rw (sym same) (h d a)
              | inr b ↦ g d b
            ],
          )
    | inr (inr e) ↦
        rw (e, max_event)
          (
            from_left (s, p) w,
            λ d y. elim (IsAbout-split A B k v d y) [
              | inl a ↦ h d a
              | inr b ↦ λ lt. g d b (tx_trans t s d.tx (tx_lt s t e) lt)
            ],
          )
  ]

-- When no two datoms of the merged array differ in their operations alone, the merge of the LIVE
-- lattices of two stores has the same event for every triple as the lattice built from the merged
-- datoms.
pub merge_causal_homomorphism :
    (m : LiveMaps) (o : Ord Datom) (a b : List Datom)
    → OneOp (In (merge_sort_dedup o a b))
    → (k : Key) (v : Value)
    → event m k v (merge_causal m (build_live_causal m a) (build_live_causal m b))
      ≡ event m k v (build_live_causal m (merge_sort_dedup o a b))
merge_causal_homomorphism m o a b one k v =
    let merged =
      united-IsLatest (In a) (In b) k v (event m k v (build_live_causal m a))
        (event m k v (build_live_causal m b)) (build_live_causal-IsLatest m a k v)
        (build_live_causal-IsLatest m b k v) in
    event-merge_causal m k v (build_live_causal m a) (build_live_causal m b)
    ∙ IsLatest-unique (In (merge_sort_dedup o a b)) k v _ _ one
        (IsLatest-same (Either (In a) (In b)) (In (merge_sort_dedup o a b)) k v _
          (In-merge_right o a b) (In-merge_left o a b) merged)
        (build_live_causal-IsLatest m (merge_sort_dedup o a b) k v)
