-- ===== src/Positional/Interpolation.antt =====
-- Interpolation search on the canonical array (search.rs, and the EAVT key of
-- ferratomic-index/src/keys.rs). The order of values is the parameter `values`; the loop runs on fuel,
-- one more than the length of the array.
use ferratomic.Prelude.{
  ℕ, zero, suc, ◌+◌, ◌-◌, ◌*◌, ◌/◌, ◌^◌, min, max, Option, none, some, List, [], ◌∷◌, Ordering, leb,
  ltb, ◌==◌, if◌then◌else◌, length, get_elem?, take,
}
use ferratomic.Prelude.Bytes.{Bytes}
use ferratomic.Prelude.Order.{Ord, then_with}
use ferratomic.Clock.TxId.{TxId, node_ord, tx_cmp}
use ferratomic.Datom.Types.{EntityId, Attribute, Value, Op, assert, retract, Datom}
use ferratomic.Positional.Eytzinger.{Search, found, absent, out_of_bounds, out_of_fuel}

pub record EavtKey : Type 0 where
  pub entity : EntityId
  pub attribute : Attribute
  pub value : Value
  pub tx : TxId
  pub op : Op

-- The derived order of operations
abbrev pub op_cmp : Op → Op → Ordering
op_cmp assert assert = Ordering.eq
op_cmp assert retract = Ordering.lt
op_cmp retract assert = Ordering.gt
op_cmp retract retract = Ordering.eq

abbrev pub reverse : Ordering → Ordering
reverse Ordering.lt = Ordering.gt
reverse Ordering.eq = Ordering.eq
reverse Ordering.gt = Ordering.lt

-- `u64::from_be_bytes`
abbrev pub big_endian : ℕ → Bytes → ℕ
big_endian n [] = n
big_endian n (b ∷ bytes) = big_endian (n * 256 + b) bytes

-- `entity_u64` and `entity_key_u64`
unfoldable pub entity_u64 : EntityId → ℕ
entity_u64 entity = big_endian 0 (take 8 entity)

-- `estimate.clamp(lo, hi)`, or the middle
unfoldable pub estimate : ℕ → ℕ → ℕ → ℕ → ℕ → ℕ
estimate lo_val hi_val key_val lo hi =
    let ratio = (key_val - lo_val) * (hi - lo) / (hi_val - lo_val) in
    let steps = if ltb ratio (2 ^ 64) then ratio else hi in
    if hi_val == lo_val then lo + (hi - lo) / 2 else min (max (lo + steps) lo) hi

unfoldable pub cmp_datom : Ord Value → EavtKey → Datom → Ordering
cmp_datom values key d = then_with (node_ord.cmp key.entity d.entity) (
    then_with (node_ord.cmp key.attribute d.attribute) (
      then_with (values.cmp key.value d.value)
        (then_with (tx_cmp key.tx d.tx) (op_cmp key.op d.op))))

-- Where the loop looks: none stands for a panic, when a bound lies outside the array or the upper
-- entity is below the lower one, so that `hi_val - lo_val` overflows.
unfoldable pub probe : EavtKey → ℕ → ℕ → Option Datom → Option Datom → Option ℕ
probe key lo hi none high = none
probe key lo hi (some low) none = none
probe key lo hi (some low) (some high) =
    let lo_val = entity_u64 low.entity in
    let hi_val = entity_u64 high.entity in
    if ltb hi_val lo_val then none else some (estimate lo_val hi_val (entity_u64 key.entity) lo hi)

module _ (values : Ord Value) (canonical : List Datom) (key : EavtKey) where
  -- The match, from the datom at `pos`, with what the two continuations give
  unfoldable pub turn : ℕ → Option Datom → Search Datom → Search Datom → Search Datom
  turn pos none right left = out_of_bounds
  turn pos (some d) right left = elim (reverse (cmp_datom values key d)) [
    | Ordering.eq ↦ found d
    | Ordering.lt ↦ right
    | Ordering.gt ↦ if pos == 0 then absent else left
  ]

  abbrev pub at_probe : Option ℕ → (ℕ → Search Datom) → Search Datom
  at_probe none continue = out_of_bounds
  at_probe (some pos) continue = continue pos

  unfoldable pub interpolate : ℕ → ℕ → ℕ → Search Datom
  interpolate zero lo hi = out_of_fuel
  interpolate (suc fuel) lo hi =
      let next : ℕ → Search Datom = λ pos.
        turn pos (get_elem? canonical pos) (interpolate fuel (pos + 1) hi)
          (interpolate fuel lo (pos - 1)) in
      let pos = probe key lo hi (get_elem? canonical lo) (get_elem? canonical hi) in
      if leb lo hi then at_probe pos next else absent

  unfoldable pub interpolation_search : Search Datom
  interpolation_search =
      if length canonical == 0
      then absent
      else interpolate (suc (length canonical)) 0 (length canonical - 1)
