-- ===== src/Store/Causal.antt =====
-- The causal LIVE lattice of a store and the LIVE set it projects to (query.rs, store.rs, merge.rs).
use ferratomic.Prelude.{
  Bool, true, false, Option, none, some, List, [], ◌∷◌, Ordering, if◌then◌else◌,
}
use ferratomic.Prelude.Order.{Ord}
use ferratomic.Prelude.TreeMap.{TreeMap}
use ferratomic.Clock.TxId.{TxId, tx_cmp}
use ferratomic.Datom.Types.{EntityId, Attribute, Value, Op, assert, retract, Datom}
use ferratomic.Store.OrdMap.{OrdMap, OrdSet}

abbrev pub Key : Type 0
Key = EntityId × Attribute

-- `(TxId, Op)`
abbrev pub Event : Type 0
Event = TxId × Op

-- The orders of keys and values that `derive(Ord)` gives, and the maps and sets over them.
pub record LiveMaps : Type 1 where
  pub key_order : Ord Key
  pub value_order : Ord Value
  pub entries : OrdMap value_order Event
  pub causal : OrdMap key_order entries.Carrier
  pub values : OrdSet value_order
  pub live : OrdMap key_order values.Carrier

abbrev pub key : Datom → Key
key d = (d.entity, d.attribute)

abbrev pub event_of : Datom → Event
event_of d = (d.tx, d.op)

abbrev pub is_assert : Op → Bool
is_assert assert = true
is_assert retract = false

-- `std::cmp::max` of two events: the later `TxId`, then `Retract` over `Assert`; the second of
-- equal ones
abbrev pub max_op : Op → Op → Op
max_op assert o = o
max_op retract o = retract

unfoldable pub max_event : Event → Event → Event
max_event (s, p) (t, q) = elim (tx_cmp s t) [
  | Ordering.lt ↦ (t, q)
  | Ordering.eq ↦ (t, max_op p q)
  | Ordering.gt ↦ (s, p)
]

module _ (m : LiveMaps) where
  -- `LiveCausal`
  abbrev pub LiveCausal : Type 0
  LiveCausal = m.causal.Carrier

  abbrev pub LiveSet : Type 0
  LiveSet = m.live.Carrier

  -- `entry(key).or_default()`
  abbrev pub entries_or_default : Option m.entries.Carrier → m.entries.Carrier
  entries_or_default none = m.entries.empty
  entries_or_default (some es) = es

  abbrev pub values_or_default : Option m.values.Carrier → m.values.Carrier
  values_or_default none = m.values.empty
  values_or_default (some vs) = vs

  -- One round of `build_live_causal`, on the entries of the datom's key
  unfoldable pub retain_latest : Datom → Option Event → m.entries.Carrier → m.entries.Carrier
  retain_latest d none es = m.entries.insert d.value (event_of d) es
  retain_latest d (some (existing_tx, op)) es = elim (tx_cmp existing_tx d.tx) [
    | Ordering.lt ↦ m.entries.insert d.value (event_of d) es
    | _ ↦ es
  ]

  unfoldable pub build_round : Datom → LiveCausal → LiveCausal
  build_round d causal =
      let es = entries_or_default (m.causal.get (key d) causal) in
      m.causal.insert (key d) (retain_latest d (m.entries.get d.value es) es) causal

  unfoldable pub build_from : LiveCausal → List Datom → LiveCausal
  build_from causal [] = causal
  build_from causal (d ∷ datoms) = build_from (build_round d causal) datoms

  unfoldable pub build_live_causal : List Datom → LiveCausal
  build_live_causal datoms = build_from m.causal.empty datoms

  -- `derive_live_set`
  unfoldable pub asserted : TreeMap Value Event → m.values.Carrier → m.values.Carrier
  asserted [] values = values
  asserted ((value, (t, op)) ∷ es) values =
      asserted es (if is_assert op then m.values.insert value values else values)

  unfoldable pub derive_from : TreeMap Key m.entries.Carrier → LiveSet → LiveSet
  derive_from [] live = live
  derive_from ((k, es) ∷ causal) live =
      let values = asserted (m.entries.iter es) m.values.empty in
      derive_from causal (if m.values.is_empty values then live else m.live.insert k values live)

  unfoldable pub derive_live_set : LiveCausal → LiveSet
  derive_live_set causal = derive_from (m.causal.iter causal) m.live.empty

  -- `merge_causal`
  unfoldable pub merge_causal : LiveCausal → LiveCausal → LiveCausal
  merge_causal a b = m.causal.union_with (λ x y. m.entries.union_with max_event x y) a b

  -- `causal.get(&key).and_then(|entries| entries.get(&value))`
  abbrev pub entry_of : Value → Option m.entries.Carrier → Option Event
  entry_of v none = none
  entry_of v (some es) = m.entries.get v es

  abbrev pub event : Key → Value → LiveCausal → Option Event
  event k v causal = entry_of v (m.causal.get k causal)

  -- `live_apply`: whether the value was live, and whether the datom is later than what is known
  unfoldable pub was_live : Option Event → Bool
  was_live none = false
  was_live (some (t, op)) = is_assert op

  unfoldable pub should_update : TxId → Option Event → Bool
  should_update tx none = true
  should_update tx (some (existing_tx, op)) = elim (tx_cmp tx existing_tx) [
    | Ordering.gt ↦ true
    | _ ↦ false
  ]

  unfoldable pub put_live : Datom → LiveSet → LiveSet
  put_live d live =
      m.live.insert (key d) (m.values.insert d.value (values_or_default (m.live.get (key d) live)))
        live

  unfoldable pub remove_from : Datom → Option m.values.Carrier → LiveSet → LiveSet
  remove_from d none live = live
  remove_from d (some vals) live =
      let rest = m.values.remove d.value vals in
      if m.values.is_empty rest then m.live.remove (key d) live else m.live.insert (key d) rest live

  unfoldable pub project : Datom → Bool → LiveSet → LiveSet
  project d was live = elim d.op [
    | assert ↦ if was then live else put_live d live
    | retract ↦ if was then remove_from d (m.live.get (key d) live) live else live
  ]

  unfoldable pub record_event : Datom → LiveCausal → LiveCausal
  record_event d causal =
      m.causal.insert (key d)
        (m.entries.insert d.value (event_of d) (entries_or_default (m.causal.get (key d) causal)))
        causal

  unfoldable pub live_apply : Datom → LiveCausal × LiveSet → LiveCausal × LiveSet
  live_apply d (causal, live) =
      let existing = event (key d) d.value causal in
      if should_update d.tx existing
      then (record_event d causal, project d (was_live existing) live)
      else (causal, live)

  unfoldable pub live_apply_all : List Datom → LiveCausal × LiveSet → LiveCausal × LiveSet
  live_apply_all [] state = state
  live_apply_all (d ∷ datoms) state = live_apply_all datoms (live_apply d state)
