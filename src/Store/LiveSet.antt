-- ===== src/Store/LiveSet.antt =====
-- The LIVE set follows the LIVE lattice (query.rs, store.rs).
use ferratomic.Prelude.{
  ◌≡◌, refl, sym, ap, ◌∙◌, inl, inr, Bool, true, false, Option, none, some, [], ◌∷◌, Ordering,
  Bool-cases, if◌then◌else◌,
}
use ferratomic.Prelude.Order.{eq_cases}
use ferratomic.Prelude.TreeMap
use ferratomic.Prelude.TreeMap.{TreeMap, lookup}
use ferratomic.Datom.Types.{Value}
use ferratomic.Store.Causal.{
  Key, Event, LiveMaps, is_assert, LiveCausal, LiveSet, event, was_live, asserted, derive_from,
  derive_live_set, entry_of,
}

module _ (m : LiveMaps) where
  abbrev pub contains_in : Value → Option m.values.Carrier → Bool
  contains_in v none = false
  contains_in v (some vs) = m.values.contains v vs

  -- Whether `live_values` of the key has the value.
  abbrev pub is_live : Key → Value → LiveSet m → Bool
  is_live k v live = contains_in v (m.live.get k live)

  -- The LIVE set has the values whose event is an assertion.
  abbrev pub IsSynced : LiveCausal m → LiveSet m → Type 0
  IsSynced causal live = (k : Key) (v : Value) → is_live k v live ≡ was_live m (event m k v causal)

  pub is_live-insert :
      (k : Key) (v : Value) (vs : m.values.Carrier) (live : LiveSet m)
      → is_live k v (m.live.insert k vs live) ≡ m.values.contains v vs
  is_live-insert k v vs live = ap (contains_in v) (m.live.get-insert k vs live)

  pub is_live-insert_ne :
      (i k : Key) (v : Value) (vs : m.values.Carrier) (live : LiveSet m)
      → ¬ (m.key_order.cmp i k ≡ Ordering.eq)
      → is_live i v (m.live.insert k vs live) ≡ is_live i v live
  is_live-insert_ne i k v vs live h = ap (contains_in v) (m.live.get-insert_ne i k vs live h)

  -- `asserted` keeps what is in the set, and adds the values whose event is an assertion.
  abbrev add : Bool → Value → m.values.Carrier → m.values.Carrier
  add b v vs = if b then m.values.insert v vs else vs

  contains-add_ne :
      (b : Bool) (i v : Value) (vs : m.values.Carrier)
      → ¬ (m.value_order.cmp i v ≡ Ordering.eq)
      → m.values.contains i (add b v vs) ≡ m.values.contains i vs
  contains-add_ne true i v vs h = m.values.contains-insert_ne i v vs h
  contains-add_ne false i v vs h = refl

  contains-add :
      (b : Bool) (v : Value) (vs : m.values.Carrier)
      → m.values.contains v vs ≡ false
      → m.values.contains v (add b v vs) ≡ b
  contains-add true v vs h = m.values.contains-insert v vs
  contains-add false v vs h = h

  asserted_absent :
      (v : Value) (es : TreeMap Value Event) (vs : m.values.Carrier)
      → lookup m.value_order v es ≡ none
      → m.values.contains v (asserted m es vs) ≡ m.values.contains v vs
  unfolding asserted
  asserted_absent v [] vs h = refl
  asserted_absent v ((w, (t, op)) ∷ es) vs h = elim (eq_cases m.value_order v w) [
    | inl e ↦ absurd (cc (h, e, TreeMap.lookup_head m.value_order w (t, op) es))
    | inr n ↦
        asserted_absent v es (add (is_assert op) w vs)
          (sym (TreeMap.lookup_ne m.value_order v w (t, op) es n) ∙ h)
        ∙ contains-add_ne (is_assert op) v w vs n
  ]

  contains-asserted :
      (v : Value) (es : TreeMap Value Event) (vs : m.values.Carrier)
      → TreeMap.IsSorted m.value_order es
      → m.values.contains v vs ≡ false
      → m.values.contains v (asserted m es vs) ≡ was_live m (lookup m.value_order v es)
  unfolding asserted was_live
  contains-asserted v [] vs s h =
      h ∙ sym (ap (was_live m) (TreeMap.lookup-Above m.value_order v [] tt))
  contains-asserted v ((w, (t, op)) ∷ es) vs s h = elim (eq_cases m.value_order v w) [
    | inl e ↦
        rw (e, TreeMap.lookup_head m.value_order w (t, op) es)
          (asserted_absent w es (add (is_assert op) w vs)
              (TreeMap.lookup-Above m.value_order w es s.0)
            ∙ contains-add (is_assert op) w vs (rw (sym e) h))
    | inr n ↦
        contains-asserted v es (add (is_assert op) w vs) s.1
          (contains-add_ne (is_assert op) v w vs n ∙ h)
        ∙ sym (ap (was_live m) (TreeMap.lookup_ne m.value_order v w (t, op) es n))
  ]

  -- The same of `derive_from` and keys.
  abbrev kept_values : m.entries.Carrier → m.values.Carrier
  kept_values es = asserted m (m.entries.iter es) m.values.empty

  contains-kept_values :
      (v : Value) (es : m.entries.Carrier)
      → m.values.contains v (kept_values es) ≡ was_live m (m.entries.get v es)
  contains-kept_values v es =
      contains-asserted v (m.entries.iter es) m.values.empty (m.entries.iter-IsSorted es)
        (m.values.contains-empty v)
      ∙ ap (was_live m) (m.entries.lookup-iter v es)

  abbrev store_values : Key → m.values.Carrier → LiveSet m → LiveSet m
  store_values k vs live = if m.values.is_empty vs then live else m.live.insert k vs live

  is_live-store_values_ne :
      (i k : Key) (v : Value) (vs : m.values.Carrier) (live : LiveSet m)
      → ¬ (m.key_order.cmp i k ≡ Ordering.eq)
      → is_live i v (store_values k vs live) ≡ is_live i v live
  is_live-store_values_ne i k v vs live h = elim (Bool-cases (m.values.is_empty vs)) [
    | inl e ↦ rw e refl
    | inr e ↦ rw e (is_live-insert_ne i k v vs live h)
  ]

  is_live-store_values :
      (k : Key) (v : Value) (vs : m.values.Carrier) (live : LiveSet m)
      → is_live k v live ≡ false
      → is_live k v (store_values k vs live) ≡ m.values.contains v vs
  is_live-store_values k v vs live h = elim (Bool-cases (m.values.is_empty vs)) [
    | inl e ↦ rw e (h ∙ sym (m.values.contains-is_empty v vs e))
    | inr e ↦ rw e (is_live-insert k v vs live)
  ]

  derive_absent :
      (k : Key) (v : Value) (causal : TreeMap Key m.entries.Carrier) (live : LiveSet m)
      → lookup m.key_order k causal ≡ none
      → is_live k v (derive_from m causal live) ≡ is_live k v live
  unfolding derive_from
  derive_absent k v [] live h = refl
  derive_absent k v ((j, es) ∷ causal) live h = elim (eq_cases m.key_order k j) [
    | inl e ↦ absurd (cc (h, e, TreeMap.lookup_head m.key_order j es causal))
    | inr n ↦
        derive_absent k v causal (store_values j (kept_values es) live)
          (sym (TreeMap.lookup_ne m.key_order k j es causal n) ∙ h)
        ∙ is_live-store_values_ne k j v (kept_values es) live n
  ]

  is_live-derive_from :
      (k : Key) (v : Value) (causal : TreeMap Key m.entries.Carrier) (live : LiveSet m)
      → TreeMap.IsSorted m.key_order causal
      → is_live k v live ≡ false
      → is_live k v (derive_from m causal live)
        ≡ was_live m (entry_of m v (lookup m.key_order k causal))
  unfolding derive_from was_live
  is_live-derive_from k v [] live s h =
      h ∙ sym (ap (λ e. was_live m (entry_of m v e)) (TreeMap.lookup-Above m.key_order k [] tt))
  is_live-derive_from k v ((j, es) ∷ causal) live s h = elim (eq_cases m.key_order k j) [
    | inl e ↦
        rw (e, TreeMap.lookup_head m.key_order j es causal)
          (derive_absent j v causal (store_values j (kept_values es) live)
              (TreeMap.lookup-Above m.key_order j causal s.0)
            ∙ is_live-store_values j v (kept_values es) live (rw (sym e) h)
            ∙ contains-kept_values v es)
    | inr n ↦
        is_live-derive_from k v causal (store_values j (kept_values es) live) s.1
          (is_live-store_values_ne k j v (kept_values es) live n ∙ h)
        ∙ sym
            (ap (λ e. was_live m (entry_of m v e)) (TreeMap.lookup_ne m.key_order k j es causal n))
  ]

  pub derive_live_set-IsSynced :
      (causal : LiveCausal m) → IsSynced causal (derive_live_set m causal)
  unfolding derive_live_set
  derive_live_set-IsSynced causal k v =
      is_live-derive_from k v (m.causal.iter causal) m.live.empty (m.causal.iter-IsSorted causal)
        (ap (contains_in v) (m.live.get-empty k))
      ∙ ap (λ e. was_live m (entry_of m v e)) (m.causal.lookup-iter k causal)
