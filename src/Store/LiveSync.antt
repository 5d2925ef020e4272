-- ===== src/Store/LiveSync.antt =====
-- The incremental update of the LIVE set keeps it in step with the LIVE lattice (store.rs).
use ferratomic.Prelude.{
  ◌≡◌, refl, sym, ap, ◌∙◌, ◌⊎◌, inl, inr, Bool, true, false, Option, none, some, List, [], ◌∷◌,
  Ordering, Bool-cases,
}
use ferratomic.Prelude.Order.{eq_cases}
use ferratomic.Datom.Types.{Value, Op, assert, retract, Datom}
use ferratomic.Store.Causal.{
  Key, LiveMaps, key, is_assert, LiveCausal, LiveSet, values_or_default, event, was_live,
  should_update, derive_live_set, put_live, remove_from, project, record_event, live_apply,
  live_apply_all,
}
use ferratomic.Store.Events.{event-record_event, event-record_event_ne}
use ferratomic.Store.LiveSet.{
  contains_in, is_live, IsSynced, is_live-insert, is_live-insert_ne, derive_live_set-IsSynced,
}

module _ (m : LiveMaps) where
  contains-values_or_default :
      (v : Value) (o : Option m.values.Carrier)
      → m.values.contains v (values_or_default m o) ≡ contains_in m v o
  contains-values_or_default v none = m.values.contains-empty v
  contains-values_or_default v (some vs) = refl

  -- Another triple than the datom's.
  abbrev IsOther : Datom → Key → Value → Type 0
  IsOther d k v =
      (¬ (m.key_order.cmp k (key d) ≡ Ordering.eq))
      ⊎ (¬ (m.value_order.cmp v d.value ≡ Ordering.eq))

  is_live-put_live :
      (d : Datom) (live : LiveSet m) → is_live m (key d) d.value (put_live m d live) ≡ true
  unfolding put_live
  is_live-put_live d live =
      is_live-insert m (key d) d.value _ live ∙ m.values.contains-insert d.value _

  is_live-put_live_ne :
      (d : Datom) (k : Key) (v : Value) (live : LiveSet m)
      → IsOther d k v
      → is_live m k v (put_live m d live) ≡ is_live m k v live
  unfolding put_live
  is_live-put_live_ne d k v live (inl h) = is_live-insert_ne m k (key d) v _ live h
  is_live-put_live_ne d k v live (inr h) = elim (eq_cases m.key_order k (key d)) [
    | inl e ↦ rw e (
        is_live-insert m (key d) v _ live
        ∙ m.values.contains-insert_ne v d.value _ h
        ∙ contains-values_or_default v (m.live.get (key d) live))
    | inr n ↦ is_live-insert_ne m k (key d) v _ live n
  ]

  is_live-remove_from :
      (d : Datom) (o : Option m.values.Carrier) (live : LiveSet m)
      → m.live.get (key d) live ≡ o
      → is_live m (key d) d.value (remove_from m d o live) ≡ false
  unfolding remove_from
  is_live-remove_from d none live h = ap (contains_in m d.value) h
  is_live-remove_from d (some vs) live h =
      elim (Bool-cases (m.values.is_empty (m.values.remove d.value vs))) [
        | inl e ↦ rw (e, remove_from) (ap (contains_in m d.value) (m.live.get-remove (key d) live))
        | inr e ↦
            rw (e, remove_from)
              (is_live-insert m (key d) d.value _ live ∙ m.values.contains-remove d.value vs)
      ]

  is_live-remove_from_ne :
      (d : Datom) (o : Option m.values.Carrier) (k : Key) (v : Value) (live : LiveSet m)
      → m.live.get (key d) live ≡ o
      → IsOther d k v
      → is_live m k v (remove_from m d o live) ≡ is_live m k v live
  unfolding remove_from
  is_live-remove_from_ne d none k v live h other = refl
  is_live-remove_from_ne d (some vs) k v live h other =
      let rest = m.values.remove d.value vs in
      elim (eq_cases m.key_order k (key d)) [
        | inl e ↦ elim other [
          | inl n ↦ absurd (n (rw e (m.key_order.cmp_refl (key d))))
          | inr n ↦
              let found : m.live.get k live ≡ some vs = rw e h in
              let kept : m.values.contains v rest ≡ is_live m k v live =
                m.values.contains-remove_ne v d.value vs n ∙ sym (ap (contains_in m v) found) in
              elim (Bool-cases (m.values.is_empty rest)) [
                | inl b ↦
                    rw (b, remove_from)
                      (rw e (ap (contains_in m v) (m.live.get-remove (key d) live))
                        ∙ sym (m.values.contains-is_empty v rest b)
                        ∙ kept)
                | inr b ↦ rw (b, remove_from) (rw e (is_live-insert m (key d) v rest live) ∙ kept)
              ]
        ]
        | inr n ↦ elim (Bool-cases (m.values.is_empty rest)) [
          | inl b ↦
              rw (b, remove_from) (ap (contains_in m v) (m.live.get-remove_ne k (key d) live n))
          | inr b ↦ rw (b, remove_from) (is_live-insert_ne m k (key d) v rest live n)
        ]
      ]

  is_live-project :
      (d : Datom) (was : Bool) (live : LiveSet m)
      → is_live m (key d) d.value live ≡ was
      → is_live m (key d) d.value (project m d was live) ≡ is_assert d.op
  unfolding project
  is_live-project d was live h = go d.op refl was h
    where
      go :
          (op : Op)
          → d.op ≡ op
          → (b : Bool) → is_live m (key d) d.value live ≡ b
          → is_live m (key d) d.value (project m d b live) ≡ is_assert op
      go assert e true k = rw (e, project) k
      go assert e false k = rw (e, project) (is_live-put_live d live)
      go retract e true k =
          rw (e, project) (is_live-remove_from d (m.live.get (key d) live) live refl)
      go retract e false k = rw (e, project) k

  is_live-project_ne :
      (d : Datom) (was : Bool) (k : Key) (v : Value) (live : LiveSet m)
      → IsOther d k v
      → is_live m k v (project m d was live) ≡ is_live m k v live
  unfolding project
  is_live-project_ne d was k v live h = go d.op refl was
    where
      go :
          (op : Op)
          → d.op ≡ op
          → (b : Bool) → is_live m k v (project m d b live) ≡ is_live m k v live
      go assert e true = rw (e, project) refl
      go assert e false = rw (e, project) (is_live-put_live_ne d k v live h)
      go retract e true =
          rw (e, project) (is_live-remove_from_ne d (m.live.get (key d) live) k v live refl h)
      go retract e false = rw (e, project) refl

  live_apply-IsSynced :
      (d : Datom) (c : LiveCausal m) (live : LiveSet m)
      → IsSynced m c live
      → IsSynced m (live_apply m d (c, live)).0 (live_apply m d (c, live)).1
  unfolding live_apply was_live
  live_apply-IsSynced d c live s k v =
      elim (Bool-cases (should_update m d.tx (event m (key d) d.value c))) [
        | inl e ↦ rw (e, live_apply) (updated k v)
        | inr e ↦ rw (e, live_apply) (s k v)
      ]
    where
      was : Bool
      was = was_live m (event m (key d) d.value c)

      other :
          (k : Key) (v : Value)
          → IsOther d k v
          → is_live m k v (project m d was live) ≡ was_live m (event m k v (record_event m d c))
      other k v h =
          is_live-project_ne d was k v live h
          ∙ s k v
          ∙ sym (ap (was_live m) (event-record_event_ne m d k v c h))

      updated :
          (k : Key) (v : Value)
          → is_live m k v (project m d was live) ≡ was_live m (event m k v (record_event m d c))
      updated k v = elim (eq_cases m.key_order k (key d)) [
        | inl ke ↦ elim (eq_cases m.value_order v d.value) [
          | inl ve ↦
              rw (ke, ve, event-record_event m d c) (is_live-project d was live (s (key d) d.value))
          | inr n ↦ other k v (inr n)
        ]
        | inr n ↦ other k v (inl n)
      ]

  pub live_apply_all-IsSynced :
      (datoms : List Datom) (c : LiveCausal m) (live : LiveSet m)
      → IsSynced m c live
      → IsSynced m (live_apply_all m datoms (c, live)).0 (live_apply_all m datoms (c, live)).1
  unfolding live_apply_all
  live_apply_all-IsSynced [] c live s = s
  live_apply_all-IsSynced (d ∷ datoms) c live s =
      let next = live_apply m d (c, live) in
      live_apply_all-IsSynced datoms next.0 next.1 (live_apply-IsSynced d c live s)

  -- The LIVE set that is derived from any lattice has the values whose event there is an assertion,
  -- and applying datoms to both keeps that so.
  pub live_set_follows_lattice :
      (c : LiveCausal m) (datoms : List Datom) (k : Key) (v : Value)
      → (is_live m k v (derive_live_set m c) ≡ was_live m (event m k v c))
        × (is_live m k v (live_apply_all m datoms (c, derive_live_set m c)).1
            ≡ was_live m (event m k v (live_apply_all m datoms (c, derive_live_set m c)).0))
  live_set_follows_lattice c datoms k v =
      let derived = derive_live_set-IsSynced m c in
      (derived k v, live_apply_all-IsSynced datoms c (derive_live_set m c) derived k v)
