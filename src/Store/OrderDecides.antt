-- ===== src/Store/OrderDecides.antt =====
-- The order in which a `HashMap` yields the groups decides what an ambiguous schema is
-- (schema_evolution.rs, INV-FERR-009).
use ferratomic.Prelude.{ℕ, zero, suc, ◌≡◌, some, List, [], ◌∷◌, ◌++◌}
use ferratomic.Prelude.Results.{ok}
use ferratomic.Prelude.TreeMap
use ferratomic.Datom.Types.{Attribute, Datom}
use ferratomic.Tx.Schema.{AttributeDef, Schema, get_attribute}
use ferratomic.Store.Evolution.{Visit, evolve_schema}
use ferratomic.Store.AnyOrder.{IsVisit}

-- The first `n` groups, one by one, go behind the others.
unfoldable rotated : ℕ → Visit
rotated zero groups = groups
rotated (suc n) [] = []
rotated (suc n) (g ∷ groups) = rotated n (groups ++ g ∷ [])

-- With the groups in some order, the evolution succeeds and the schema has this definition.
abbrev pub Wins : List Datom → Schema → Attribute → AttributeDef → Type 0
Wins datoms schema attr d =
    (w : Visit) × IsVisit w
    × ((evolve_schema w schema datoms).1 ≡ ok tt)
    × (get_attribute attr (evolve_schema w schema datoms).0 ≡ some d)
