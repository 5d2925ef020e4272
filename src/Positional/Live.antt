-- ===== src/Positional/Live.antt =====
-- The kernel of the LIVE reconstruction (live.rs). The array is given as its group keys and
-- operations; the equality of keys is the parameter `same`. Positions are `u32`.
use ferratomic.Prelude.{ℕ, ◌+◌, min, Bool, true, false, List, [], ◌∷◌}
use ferratomic.Datom.Types.{EntityId, Attribute, Value, Op, assert, retract, Datom}

-- A run has ended at `pos`, where `op` stands.
abbrev pub push_live : Op → ℕ → List ℕ → List ℕ
push_live assert pos later = min pos 0xFFFF_FFFF ∷ later
push_live retract pos later = later

module _ {ℓ} {K : Type ℓ} (same : K → K → Bool) where
  -- Both loops: `key` is the key of the run, `op` and `pos` belong to the entry read last.
  unfoldable pub live_run : K → Op → ℕ → List (K × Op) → List ℕ
  live_run key op pos [] = push_live op pos []
  live_run key op pos ((k, o) ∷ entries) = elim (same k key) [
    | true ↦ live_run key o (pos + 1) entries
    | false ↦ push_live op pos (live_run k o (pos + 1) entries)
  ]

  unfoldable pub live_positions_from_sorted_runs : List (K × Op) → List ℕ
  live_positions_from_sorted_runs [] = []
  live_positions_from_sorted_runs ((k, o) ∷ entries) = live_run k o 0 entries

-- `live_positions_kernel`: the runs of datoms of one entity, attribute and value
abbrev pub Group : Type 0
Group = (EntityId × Attribute) × Value

abbrev pub group_entries : List Datom → List (Group × Op)
group_entries [] = []
group_entries (d ∷ canonical) = (((d.entity, d.attribute), d.value), d.op) ∷ group_entries canonical

unfoldable pub live_positions_kernel : (Group → Group → Bool) → List Datom → List ℕ
live_positions_kernel same canonical =
    live_positions_from_sorted_runs same (group_entries canonical)
